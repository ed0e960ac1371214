-- ===== src/Connection/Remote/Results.antt =====
-- ingest/src/connection/mod.rs: the results of `allocate_port` and `generate_hmac`.
use itgv.Base.{
  ℕ, zero, suc, ◌*◌, ◌%◌, ◌<◌, ◌≡◌, inl, inr, refl, ap, ◌∙◌, Option, none, some, List, [], ◌∷◌,
  ◌++◌, arith, length, Option-cases,
}
use itgv.Connection.Remote.{
  Env, posted, allocated, base_url, allocate_port, samples, generate_hmac, port_of, of_body,
  read_port, note_port,
}
use itgv.Connection.Services.{Services, Documented, AllHex}
use itgv.Std.Result.{Result, ok, err}
use itgv.Std.Text.{Text, lit}

module _ (services : Services) where
  pub record PortFrom (env : Env services) (p : ℕ) : Type 0 where
    pub small : p < 65536
    pub body : services.Value
    pub field : services.Value
    pub number : ℕ
    pub has_field : services.get (lit "port") body ≡ some field
    pub is_number : services.as_u64 field ≡ some number
    pub reduced : p ≡ number % 65536
    pub requests :
        (allocate_port services env).0.events
        ≡ allocated p ∷ posted (base_url services env.world ++ lit "/stream") ∷ env.events

  value-PortFrom :
      (v : services.Value) (p : ℕ)
      → port_of services v ≡ some p
      → (field : services.Value) × (number : ℕ) × (services.get (lit "port") v ≡ some field)
        × (services.as_u64 field ≡ some number)
        × (p ≡ number % 65536)
  value-PortFrom v p h = elim (Option-cases (services.get (lit "port") v)) [
    | inl e ↦ ground arith
    | inr (field, e) ↦ elim (Option-cases (services.as_u64 field)) [
      | inl f ↦ ground arith
      | inr (number, f) ↦ (field, number, e, f, ground arith)
    ]
  ]

  from_body :
      (b : Result services.Error services.Value) (p : ℕ)
      → of_body services b ≡ some p
      → (v : services.Value) × (port_of services v ≡ some p)
  from_body (ok v) p h = (v, h)
  from_body (err e) p h = cc

  from_response :
      (r : Result services.Error services.Response) (env : Env services) (p : ℕ)
      → (read_port services r env).1 ≡ some p
      → (v : services.Value) × (port_of services v ≡ some p)
  from_response (ok resp) env p h = from_body (services.json resp env.world).1 p h
  from_response (err e) env p h = cc

  pub read_port-events :
      (r : Result services.Error services.Response) (env : Env services)
      → (read_port services r env).0.events ≡ env.events
  read_port-events (ok resp) env = refl
  read_port-events (err e) env = refl

  note_port-result :
      (o : Option ℕ) (env : Env services) (p : ℕ)
      → (note_port services o env).1 ≡ some p
      → (o ≡ some p) × ((note_port services o env).0.events ≡ allocated p ∷ env.events)
  note_port-result none env p h = cc
  note_port-result (some q) env p h = (h, ground arith)

  -- A port that is given out is what the JSON body of an answer holds under "port" as an unsigned
  -- integer, reduced to sixteen bits; one request was made for it, a POST to "/stream" below the
  -- configured address.
  pub allocate_port-PortFrom :
      (env : Env services) (p : ℕ) → (allocate_port services env).1 ≡ some p → PortFrom env p
  unfolding allocate_port
  allocate_port-PortFrom env p h = record {
    small = omega (arith, value.4);
    body = body.0;
    field = value.0;
    number = value.1;
    has_field = value.2;
    is_number = value.3;
    reduced = value.4;
    requests = noted.1 ∙ ap (λ es. allocated p ∷ es) (read_port-events answer.1 asked);
  }
    where
      url : Text
      url = base_url services env.world ++ lit "/stream"

      answer : services.World × Result services.Error services.Response
      answer = services.post url env.world

      asked : Env services
      asked = record { world = answer.0; events = posted url ∷ env.events }

      read : Env services × Option ℕ
      read = read_port services answer.1 asked

      noted :
          (read.1 ≡ some p)
          × ((note_port services read.1 read.0).0.events ≡ allocated p ∷ read.0.events)
      noted = note_port-result read.1 read.0 p h

      body : (v : services.Value) × (port_of services v ≡ some p)
      body = from_response answer.1 asked p noted.0

      value :
          (field : services.Value) × (number : ℕ) × (services.get (lit "port") body.0 ≡ some field)
          × (services.as_u64 field ≡ some number)
          × (p ≡ number % 65536)
      value = value-PortFrom body.0 p body.1

  all_hex : Documented services → (bs : List ℕ) → AllHex (services.hex_encode bs)
  all_hex d [] = rw d.hex_nil tt
  all_hex d (b ∷ bs) = let (hi, lo, e, p, q) = d.hex_cons b bs in rw e (p, (q, all_hex d bs))

  length-hex_encode :
      Documented services → (bs : List ℕ) → length (services.hex_encode bs) ≡ 2 * length bs
  length-hex_encode d [] = ap length d.hex_nil
  length-hex_encode d (b ∷ bs) =
      let (hi, lo, e, p, q) = d.hex_cons b bs in omega (arith, ap length e, length-hex_encode d bs)

  abbrev pub AllBelow : ℕ → List ℕ → Type 0
  AllBelow n [] = Unit {0}
  AllBelow n (b ∷ bs) = (b < n) × AllBelow n bs

  -- Each number is one sample of `Uniform::new(0x00, 0xFF)`, taken in the world that the one before
  -- it left.
  pub data Sampled : services.World → List ℕ → services.World → Type 0 where
    no_more : (w : services.World) → Sampled w [] w
    one_more :
        (w : services.World) (bytes : List ℕ) (last : services.World)
        → Sampled (services.sample 0x00 0xff w).0 bytes last
        → Sampled w ((services.sample 0x00 0xff w).1 ∷ bytes) last

  samples-Sampled :
      (n : ℕ) (env : Env services)
      → Sampled env.world (samples services n env).1 (samples services n env).0.world
  unfolding samples
  samples-Sampled zero env = no_more env.world
  samples-Sampled (suc n) env =
      one_more env.world _ _
        (samples-Sampled n (record env { world = (services.sample 0x00 0xff env.world).0 }))

  pub samples-events : (n : ℕ) (env : Env services) → (samples services n env).0.events ≡ env.events
  unfolding samples
  samples-events zero env = refl
  samples-events (suc n) env =
      samples-events n (record env { world = (services.sample 0x00 0xff env.world).0 })

  samples_range :
      (n : ℕ) (env : Env services)
      → Documented services
      → (length (samples services n env).1 ≡ n) × AllBelow 255 (samples services n env).1
  unfolding samples
  samples_range zero env d = (refl, tt)
  samples_range (suc n) env d =
      let (w, b) = services.sample 0x00 0xff env.world in
      let (len, small) = samples_range n (record env { world = w }) d in
      (ap suc len, ((d.sample_range 0x00 0xff env.world (omega arith)).1, small))

  -- The payload is the hexadecimal form of 128 bytes, which are 128 samples of the range from 0x00
  -- up to but not including 0xFF, one after the other, and nothing else is done outside. If the
  -- sampler and the hexadecimal encoder do as documented, it is 256 lower-case digits long, and the
  -- byte 0xff is never among them.
  pub generate_hmac_lem :
      (env : Env services)
      → Documented services
      → (bytes : List ℕ) × ((generate_hmac services env).1 ≡ services.hex_encode bytes)
        × Sampled env.world bytes (generate_hmac services env).0.world
        × ((generate_hmac services env).0.events ≡ env.events)
        × (length bytes ≡ 128)
        × AllBelow 255 bytes
        × (length (generate_hmac services env).1 ≡ 256)
        × AllHex (generate_hmac services env).1
  unfolding generate_hmac
  generate_hmac_lem env d =
      let (len, small) = samples_range 128 env d in
      let bytes = (samples services 128 env).1 in
      (
        bytes,
        refl,
        samples-Sampled 128 env,
        samples-events 128 env,
        len,
        small,
        omega (arith, length-hex_encode d bytes, len),
        all_hex d bytes,
      )
