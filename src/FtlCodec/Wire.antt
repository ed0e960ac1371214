-- ===== src/FtlCodec/Wire.antt =====
-- ingest/src/ftl_codec.rs: lines as a client writes them, and `decode`.
use itgv.Base.{
  ℕ, suc, ◌+◌, ◌≡◌, refl, ap, ◌∙◌, true, false, some, List, [], ◌∷◌, ◌++◌, arith, length, take,
  drop, append-nil, reverse, ◌⊎◌, inl, inr,
}
use itgv.FtlCodec.{
  connect, attribute, FtlCodec, delimiter, reset, decode, decode_command, decode_connect,
  decode_attribute,
}
use itgv.FtlCodec.Framing.{first_at, find_delimiter-first_at}
use itgv.FtlCodec.Stream.{decode-found}
use itgv.Std.HashMap.{HashMap, empty, insert, get}
use itgv.Std.Outcome.{ok}
use itgv.Std.Text.{Text, lit, text_eq, starts_with, contains, split, trim, Avoids}
use itgv.Std.Text.Laws.{contains_iff, split-append, split-Avoids, Blank, Solid, trim_core}
use itgv.Std.Utf8.{Bytes, as_bytes}
use itgv.Std.Utf8.RoundTrip.{AllScalar, from_utf8_lossy-as_bytes, as_bytes-Avoids}

first_at-Avoids :
    (b rest : Bytes) → Avoids b'\r' b → first_at (b ++ (delimiter ++ rest)) ≡ some (length b)
unfolding first_at starts_with
first_at-Avoids [] rest h = refl
first_at-Avoids (c ∷ cs) rest h = ground (arith, first_at-Avoids cs rest h.1)

take-length_append : (b rest : Bytes) → take (length b) (b ++ rest) ≡ b
take-length_append [] rest = refl
take-length_append (c ∷ cs) rest = ap (◌∷◌ c) (take-length_append cs rest)

drop-length_append : (b rest : Bytes) → drop (length b + 4) (b ++ (delimiter ++ rest)) ≡ rest
drop-length_append [] rest = refl
drop-length_append (c ∷ cs) rest = rw suc_add (drop-length_append cs rest)
  where
    suc_add : suc (length cs) + 4 ≡ suc (length cs + 4)
    suc_add = omega arith

-- A text of scalar values with no carriage return, sent with the delimiter behind it, reaches the
-- chain of tests as it was, and everything behind the delimiter stays in the buffer.
pub decode-as_bytes :
    (self : FtlCodec) (s : Text) (rest : Bytes)
    → AllScalar s
    → Avoids b'\r' s
    → decode self (as_bytes s ++ (delimiter ++ rest)) ≡ decode_command self rest s
decode-as_bytes self s rest u h =
    decode-found self _ (length (as_bytes s)) (
      find_delimiter-first_at _
      ∙ first_at-Avoids (as_bytes s) rest (as_bytes-Avoids b'\r' s (omega arith) h))
    ∙ rw (
      drop-length_append (as_bytes s) rest,
      take-length_append (as_bytes s) (delimiter ++ rest),
      from_utf8_lossy-as_bytes s u,
    )

abbrev pub connect_line : Text → ℕ → Text → Text
connect_line channel sigil key = lit "CONNECT" ++ (b' ' ∷ (channel ++ (b' ' ∷ sigil ∷ key)))

abbrev pub attribute_line : Text → Text → Text
attribute_line key value = key ++ (b':' ∷ value)

split-connect_line :
    (channel key : Text) (sigil : ℕ)
    → Avoids b' ' channel
    → Avoids b' ' (sigil ∷ key)
    → split b' ' (connect_line channel sigil key) ≡ lit "CONNECT" ∷ channel ∷ (sigil ∷ key) ∷ []
split-connect_line channel key sigil h k =
    split-append b' ' (lit "CONNECT") _ (omega arith)
    ∙ ap (◌∷◌ (lit "CONNECT"))
        (split-append b' ' channel _ h ∙ ap (◌∷◌ channel) (split-Avoids b' ' (sigil ∷ key) k))

decode_connect_words :
    (self : FtlCodec) (b : Bytes) (word channel key : Text) (sigil : ℕ)
    → decode_connect self b (word ∷ channel ∷ (sigil ∷ key) ∷ []) ≡ record {
      codec = reset self;
      buf = b;
      result = ok (
          some (connect (insert (lit "stream_key") key (insert (lit "channel_id") channel empty))));
    }
unfolding decode_connect
decode_connect_words self b word channel key sigil = refl

choose_connect :
    (self : FtlCodec) (b : Bytes) (s : Text)
    → contains (lit "HMAC") s ≡ false
    → contains (lit "DISCONNECT") s ≡ false
    → contains (lit "CONNECT") s ≡ true
    → decode_command self b s ≡ decode_connect self b (split b' ' s)
unfolding decode_command
choose_connect self b s h d c = rw (h, d, c, decode_command)

choose_attribute :
    (self : FtlCodec) (b : Bytes) (s : Text)
    → contains (lit "HMAC") s ≡ false
    → contains (lit "DISCONNECT") s ≡ false
    → contains (lit "CONNECT") s ≡ false
    → contains (lit ":") s ≡ true
    → decode_command self b s ≡ decode_attribute self b (split b':' s)
unfolding decode_command
choose_attribute self b s h d c a = rw (h, d, c, a, decode_command)

-- A CONNECT line of scalar values with no carriage return, with the delimiter behind it, gives back
-- its channel and, without the sigil in front, its stream key, if neither holds a space and the
-- line holds neither `HMAC` nor `DISCONNECT`; what stands behind stays in the buffer.
pub decode-connect_line :
    (self : FtlCodec) (channel key : Text) (sigil : ℕ) (rest : Bytes)
    → AllScalar (connect_line channel sigil key)
    → Avoids b'\r' (connect_line channel sigil key)
    → Avoids b' ' channel
    → Avoids b' ' (sigil ∷ key)
    → contains (lit "HMAC") (connect_line channel sigil key) ≡ false
    → contains (lit "DISCONNECT") (connect_line channel sigil key) ≡ false
    → (entries : HashMap) × (decode self
          (as_bytes (connect_line channel sigil key) ++ (delimiter ++ rest))
        ≡ record { codec = reset self; buf = rest; result = ok (some (connect entries)) })
      × (get (lit "channel_id") entries ≡ some channel)
      × (get (lit "stream_key") entries ≡ some key)
unfolding get insert text_eq
decode-connect_line self channel key sigil rest u r h k nh nd = (
  insert (lit "stream_key") key (insert (lit "channel_id") channel empty),
  decode-as_bytes self (connect_line channel sigil key) rest u r
      ∙ chosen
      ∙ ap (decode_connect self rest) (split-connect_line channel key sigil h k)
      ∙ decode_connect_words self rest (lit "CONNECT") channel key sigil,
  refl,
  refl,
)
  where
    s : Text
    s = connect_line channel sigil key

    has : contains (lit "CONNECT") s ≡ true
    has = (contains_iff (lit "CONNECT") s).1 ([], _, refl)

    chosen : decode_command self rest s ≡ decode_connect self rest (split b' ' s)
    chosen = choose_connect self rest s nh nd has

decode_attribute_pieces :
    (self : FtlCodec) (b : Bytes) (key value : Text) (more : List Text)
    → decode_attribute self b (key ∷ value ∷ more) ≡ record {
      codec = reset self;
      buf = b;
      result =
          ok (some (attribute (insert (lit "value") (trim value) (insert (lit "key") key empty))));
    }
unfolding decode_attribute
decode_attribute_pieces self b key value more = refl

-- An attribute line of scalar values with no carriage return, with the delimiter behind it, gives
-- back its key as it stands and its value without the whitespace round it, if the key holds no
-- colon and the line none of `HMAC`, `DISCONNECT` and `CONNECT`. Where more text follows from a
-- colon on, only what stands before that colon is the value.
pub decode-attribute_line :
    (self : FtlCodec) (key before value after more : Text) (rest : Bytes)
    → AllScalar (attribute_line key ((before ++ (value ++ after)) ++ more))
    → Avoids b'\r' (attribute_line key ((before ++ (value ++ after)) ++ more))
    → Avoids b':' key
    → Avoids b':' (before ++ (value ++ after))
    → (more ≡ []) ⊎ ((tail : Text) × (more ≡ b':' ∷ tail))
    → Blank before
    → Blank after
    → Solid value
    → Solid (reverse value)
    → contains (lit "HMAC") (attribute_line key ((before ++ (value ++ after)) ++ more)) ≡ false
    → contains (lit "DISCONNECT") (attribute_line key ((before ++ (value ++ after)) ++ more))
      ≡ false
    → contains (lit "CONNECT") (attribute_line key ((before ++ (value ++ after)) ++ more)) ≡ false
    → (entries : HashMap) × (decode self (
          as_bytes (attribute_line key ((before ++ (value ++ after)) ++ more))
          ++ (delimiter ++ rest))
        ≡ record { codec = reset self; buf = rest; result = ok (some (attribute entries)) })
      × (get (lit "key") entries ≡ some key)
      × (get (lit "value") entries ≡ some value)
unfolding get insert text_eq
decode-attribute_line self key before value after more rest u r hk hv hm bb ba sv rv nh nd nc = (
  insert (lit "value") value (insert (lit "key") key empty),
  decode-as_bytes self line rest u r ∙ choose_attribute self rest line nh nd nc has ∙ decoded,
  refl,
  refl,
)
  where
    piece : Text
    piece = before ++ (value ++ after)

    line : Text
    line = attribute_line key (piece ++ more)

    has : contains (lit ":") line ≡ true
    has = (contains_iff (lit ":") line).1 (key, piece ++ more, refl)

    pieces :
        (more ≡ []) ⊎ ((tail : Text) × (more ≡ b':' ∷ tail))
        → (others : List Text) × (split b':' (piece ++ more) ≡ piece ∷ others)
    pieces (inl e) = ([], rw (e, append-nil piece) (split-Avoids b':' piece hv))
    pieces (inr (tail, e)) = (split b':' tail, rw e (split-append b':' piece tail hv))

    decoded : decode_attribute self rest (split b':' line) ≡ record {
      codec = reset self;
      buf = rest;
      result = ok (some (attribute (insert (lit "value") value (insert (lit "key") key empty))));
    }
    decoded =
        let (others, e) = pieces hm in
        rw (
          split-append b':' key (piece ++ more) hk,
          e,
          decode_attribute_pieces self rest key piece others,
          trim_core before value after bb ba sv rv,
        )
