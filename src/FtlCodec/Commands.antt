-- ===== src/FtlCodec/Commands.antt =====
-- ingest/src/ftl_codec.rs, `decode`: which text gives which command.
use itgv.Base.{
  ℕ, ◌≡◌, ◌≢◌, refl, ap, subst, ◌∙◌, true, false, Option, none, some, List, [], ◌∷◌, inl, inr,
  arith, Bool-cases, Option-cases, ◌==◌, get_elem?, length, ◌&&◌,
}
use itgv.FtlCodec.{
  FtlCommand, hmac, connect, ping, dot, attribute, disconnect, FtlError, unsupported, FtlCodec,
  find_delimiter, decode, decode_command, decode_connect, decode_attribute, resets,
}
use itgv.FtlCodec.Stream.{decode-found, decode-missing}
use itgv.Std.HashMap.{insert, get}
use itgv.Std.Outcome.{Outcome, ok, err, panic}
use itgv.Std.Text.{Text, lit, text_eq, starts_with, contains, split, trim, remove_first}
use itgv.Std.Utf8.{Bytes, as_bytes, encode_char}

-- A command carries every entry that its handler looks up.
abbrev pub IsComplete : FtlCommand → Type 0
IsComplete (connect entries) =
    ((key : Text) × (get (lit "stream_key") entries ≡ some key))
    × ((channel : Text) × (get (lit "channel_id") entries ≡ some channel))
IsComplete (attribute entries) =
    ((key : Text) × (get (lit "key") entries ≡ some key))
    × ((value : Text) × (get (lit "value") entries ≡ some value))
IsComplete hmac = Unit {0}
IsComplete ping = Unit {0}
IsComplete dot = Unit {0}
IsComplete disconnect = Unit {0}

abbrev Completes : Outcome FtlError (Option FtlCommand) → Type 0
Completes (ok (some c)) = IsComplete c
Completes (ok none) = Unit {0}
Completes (err _) = Unit {0}
Completes panic = Unit {0}

decode_connect-Completes :
    (self : FtlCodec) (b : Bytes) (cs : List Text) → Completes (decode_connect self b cs).result
unfolding decode_connect insert get text_eq
decode_connect-Completes self b cs = elim (Option-cases (get_elem? cs 2)) [
  | inl e ↦ rw (e, decode_connect) tt
  | inr (w, e) ↦ elim (Option-cases (remove_first w)) [
    | inl f ↦ rw (e, f, decode_connect) tt
    | inr (key, f) ↦ elim (Option-cases (get_elem? cs 1)) [
      | inl g ↦ rw (e, f, g, decode_connect) tt
      | inr (ch, g) ↦ rw (e, f, g, decode_connect) ((key, refl), (ch, refl))
    ]
  ]
]

decode_attribute-Completes :
    (self : FtlCodec) (b : Bytes) (cs : List Text) → Completes (decode_attribute self b cs).result
unfolding decode_attribute insert get text_eq
decode_attribute-Completes self b cs = elim (Option-cases (get_elem? cs 0)) [
  | inl e ↦ rw (e, decode_attribute) tt
  | inr (key, e) ↦ elim (Option-cases (get_elem? cs 1)) [
    | inl f ↦ rw (e, f, decode_attribute) tt
    | inr (v, f) ↦ rw (e, f, decode_attribute) ((key, refl), (trim v, refl))
  ]
]

-- The branch of the chain that a text takes: the tests that fail before it and the one that holds.
pub data Branch (self : FtlCodec) (b : Bytes) (s : Text) : Type 0 where
  to_hmac :
      contains (lit "HMAC") s ≡ true
      → decode_command self b s ≡ resets self b (ok (some hmac))
      → Branch self b s
  to_disconnect :
      contains (lit "HMAC") s ≡ false
      → contains (lit "DISCONNECT") s ≡ true
      → decode_command self b s ≡ resets self b (ok (some disconnect))
      → Branch self b s
  to_connect :
      contains (lit "HMAC") s ≡ false
      → contains (lit "DISCONNECT") s ≡ false
      → contains (lit "CONNECT") s ≡ true
      → decode_command self b s ≡ decode_connect self b (split b' ' s)
      → Branch self b s
  to_attribute :
      contains (lit "HMAC") s ≡ false
      → contains (lit "DISCONNECT") s ≡ false
      → contains (lit "CONNECT") s ≡ false
      → contains (lit ":") s ≡ true
      → decode_command self b s ≡ decode_attribute self b (split b':' s)
      → Branch self b s
  to_dot : s ≡ lit "." → decode_command self b s ≡ resets self b (ok (some dot)) → Branch self b s
  to_ping :
      contains (lit "HMAC") s ≡ false
      → contains (lit "DISCONNECT") s ≡ false
      → contains (lit "CONNECT") s ≡ false
      → contains (lit ":") s ≡ false
      → contains (lit "PING") s ≡ true
      → decode_command self b s ≡ resets self b (ok (some ping))
      → Branch self b s
  to_unsupported :
      contains (lit "HMAC") s ≡ false
      → contains (lit "DISCONNECT") s ≡ false
      → contains (lit "CONNECT") s ≡ false
      → contains (lit ":") s ≡ false
      → contains (lit "PING") s ≡ false
      → s ≢ lit "."
      → decode_command self b s ≡ resets self b (err (unsupported s))
      → Branch self b s

-- One character of one byte: the dot itself.
one_byte : (s : Text) → length (as_bytes s) ≡ 1 → (c : ℕ) × (s ≡ c ∷ [])
unfolding as_bytes encode_char
one_byte [] h = absurd (omega arith)
one_byte (c ∷ []) h = (c, refl)
one_byte (c ∷ d ∷ cs) h = absurd (ground arith)

contains_one : (c : ℕ) → contains (lit ".") (c ∷ []) ≡ true → c ≡ b'.'
unfolding contains starts_with
contains_one c h = ground arith

is_dot_sound : (s : Text) → (contains (lit ".") s && length (as_bytes s) == 1) ≡ true → s ≡ lit "."
is_dot_sound s h =
    let (c, e) = one_byte s (ground arith) in
    let has : contains (lit ".") s ≡ true = ground arith in
    e ∙ ap (λ x. x ∷ []) (contains_one c (rw e at has))

pub is_dot_complete :
    (s : Text) → s ≡ lit "." → (contains (lit ".") s && length (as_bytes s) == 1) ≡ true
unfolding contains as_bytes
is_dot_complete s e = rw e

pub branch : (self : FtlCodec) (b : Bytes) (s : Text) → Branch self b s
unfolding decode_command
branch self b s = elim (Bool-cases (contains (lit "HMAC") s)) [
  | inl h ↦ to_hmac h (rw (h, decode_command))
  | inr h ↦ elim (Bool-cases (contains (lit "DISCONNECT") s)) [
    | inl d ↦ to_disconnect h d (rw (h, d, decode_command))
    | inr d ↦ elim (Bool-cases (contains (lit "CONNECT") s)) [
      | inl c ↦ to_connect h d c (rw (h, d, c, decode_command))
      | inr c ↦ elim (Bool-cases (contains (lit ":") s)) [
        | inl a ↦ to_attribute h d c a (rw (h, d, c, a, decode_command))
        | inr a ↦ elim (Bool-cases (contains (lit ".") s && length (as_bytes s) == 1)) [
          | inl t ↦ to_dot (is_dot_sound s t) (rw (h, d, c, a, t, decode_command))
          | inr t ↦ elim (Bool-cases (contains (lit "PING") s)) [
            | inl p ↦ to_ping h d c a p (rw (h, d, c, a, t, p, decode_command))
            | inr p ↦
                to_unsupported h d c a p (λ e. cc (is_dot_complete s e))
                  (rw (h, d, c, a, t, p, decode_command))
          ]
        ]
      ]
    ]
  ]
]

Branch-Completes :
    {self : FtlCodec} {b : Bytes} {s : Text}
    → Branch self b s
    → Completes (decode_command self b s).result
Branch-Completes (to_hmac _ e) = rw e tt
Branch-Completes (to_disconnect _ _ e) = rw e tt
Branch-Completes {self} {b} {s} (to_connect _ _ _ e) =
    rw e (decode_connect-Completes self b (split b' ' s))
Branch-Completes {self} {b} {s} (to_attribute _ _ _ _ e) =
    rw e (decode_attribute-Completes self b (split b':' s))
Branch-Completes (to_dot _ e) = rw e tt
Branch-Completes (to_ping _ _ _ _ _ e) = rw e tt
Branch-Completes (to_unsupported _ _ _ _ _ _ e) = rw e tt

-- Whatever bytes arrive, a command that `decode` returns has every entry its handler looks up.
pub decode-IsComplete :
    (self : FtlCodec) (b : Bytes) (c : FtlCommand)
    → (decode self b).result ≡ ok (some c)
    → IsComplete c
decode-IsComplete self b c h = subst Completes h (completes (find_delimiter b) refl)
  where
    completes : (o : Option ℕ) → find_delimiter b ≡ o → Completes (decode self b).result
    completes none e = rw (decode-missing self b e) tt
    completes (some i) e = rw (decode-found self b i e) (Branch-Completes (branch self _ _))
