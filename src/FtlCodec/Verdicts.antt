-- ===== src/FtlCodec/Verdicts.antt =====
-- ingest/src/ftl_codec.rs, `decode`: when a text gives each command, a refusal or a panic.
use itgv.Base.{
  ℕ, ◌≡◌, ◌≢◌, ◌↔◌, refl, sym, ap, ◌∙◌, true, false, Option, some, List, [], ◌∷◌, ◌++◌,
  append_assoc, ◌⊎◌, inl, inr, arith, Bool-cases, get_elem?,
}
use itgv.FtlCodec.{
  FtlCommand, hmac, connect, ping, dot, attribute, disconnect, FtlError, unsupported, FtlCodec,
  decode_command, decode_connect, decode_attribute,
}
use itgv.FtlCodec.Commands.{
  to_hmac, to_disconnect, to_connect, to_attribute, to_dot, to_ping, to_unsupported, branch,
}
use itgv.Std.Outcome.{Outcome, ok, err, panic}
use itgv.Std.Text.{Text, lit, starts_with, contains, split}
use itgv.Std.Text.Laws.{Occurs, contains_iff, split-contains}
use itgv.Std.Utf8.{Bytes}

-- The end of `decode` on the text before a delimiter; the bytes behind it have no say.
abbrev pub verdict : FtlCodec → Bytes → Text → Outcome FtlError (Option FtlCommand)
verdict self b s = (decode_command self b s).result

-- `CONNECT` wants a third word of at least one character.
abbrev pub HasKey : List Text → Type 0
HasKey words = (c : ℕ) × (key : Text) × (get_elem? words 2 ≡ some (c ∷ key))

abbrev IsConnect : Outcome FtlError (Option FtlCommand) → Type 0
IsConnect (ok (some (connect _))) = Unit {0}
IsConnect panic = Unit {0}
IsConnect _ = ⊥

record OfConnect (ws : List Text) (r : Outcome FtlError (Option FtlCommand)) : Type 0 where
  kind : IsConnect r
  panics_iff : (r ≡ panic) ↔ ¬ HasKey ws

decode_connect-OfConnect :
    (self : FtlCodec) (b : Bytes) (ws : List Text) → OfConnect ws (decode_connect self b ws).result
unfolding decode_connect
decode_connect-OfConnect self b [] = record { kind = tt; panics_iff = (λ _ k. cc k.2, λ _. refl) }
decode_connect-OfConnect self b (u ∷ []) = record {
  kind = tt;
  panics_iff = (λ _ k. cc k.2, λ _. refl);
}
decode_connect-OfConnect self b (u ∷ v ∷ []) = record {
  kind = tt;
  panics_iff = (λ _ k. cc k.2, λ _. refl);
}
decode_connect-OfConnect self b (u ∷ v ∷ [] ∷ ws) = record {
  kind = tt;
  panics_iff = (λ _ k. cc k.2, λ _. refl);
}
decode_connect-OfConnect self b (u ∷ v ∷ (c ∷ key) ∷ ws) = record {
  kind = tt;
  panics_iff = (λ e. cc, λ k. absurd (k (c, key, refl)));
}

abbrev IsAttribute : Outcome FtlError (Option FtlCommand) → Type 0
IsAttribute (ok (some (attribute _))) = Unit {0}
IsAttribute _ = ⊥

two_pieces :
    (self : FtlCodec) (b : Bytes) (key value : Text) (rest : List Text)
    → IsAttribute (decode_attribute self b (key ∷ value ∷ rest)).result
unfolding decode_attribute
two_pieces self b key value rest = tt

decode_attribute-IsAttribute :
    (self : FtlCodec) (b : Bytes) (s : Text)
    → contains (lit ":") s ≡ true
    → IsAttribute (decode_attribute self b (split b':' s)).result
decode_attribute-IsAttribute self b s h =
    let (key, value, rest, e) = split-contains b':' s h in rw e (two_pieces self b key value rest)

-- No longer word stands in the dot.
dot_alone :
    (s : Text)
    → s ≡ lit "."
    → (contains (lit "HMAC") s ≡ false)
      × (contains (lit "DISCONNECT") s ≡ false)
      × (contains (lit "CONNECT") s ≡ false)
      × (contains (lit ":") s ≡ false)
      × (contains (lit "PING") s ≡ false)
unfolding contains starts_with
dot_alone s e = rw e (refl, refl, refl, refl, refl)

-- The tests that a text fails before it can be an attribute, a ping or unsupported.
abbrev IsPlain : Text → Type 0
IsPlain s =
    (contains (lit "HMAC") s ≡ false)
    × (contains (lit "DISCONNECT") s ≡ false)
    × (contains (lit "CONNECT") s ≡ false)

abbrev Verdicts : Text → Outcome FtlError (Option FtlCommand) → Type 0
Verdicts s r =
    ((r ≡ ok (some hmac)) ↔ (contains (lit "HMAC") s ≡ true))
    × ((r ≡ ok (some disconnect))
        ↔ ((contains (lit "HMAC") s ≡ false) × (contains (lit "DISCONNECT") s ≡ true)))
    × ((r ≡ ok (some dot)) ↔ (s ≡ lit "."))
    × ((r ≡ ok (some ping))
        ↔ (IsPlain s × (contains (lit ":") s ≡ false) × (contains (lit "PING") s ≡ true)))
    × ((r ≡ err (unsupported s)) ↔ (
        IsPlain s
        × (contains (lit ":") s ≡ false)
        × (contains (lit "PING") s ≡ false)
        × (s ≢ lit ".")))
    × ((r ≡ panic) ↔ (
        (contains (lit "HMAC") s ≡ false)
        × (contains (lit "DISCONNECT") s ≡ false)
        × (contains (lit "CONNECT") s ≡ true)
        × ¬ HasKey (split b' ' s)))

verdicts : (self : FtlCodec) (b : Bytes) (s : Text) → Verdicts s (verdict self b s)
verdicts self b s = elim (branch self b s) [
  | to_hmac h e ↦ ground (arith, dot_alone s)
  | to_disconnect h d e ↦ ground (arith, dot_alone s)
  | to_connect h d c e ↦ ground (arith, dot_alone s, decode_connect-OfConnect self b (split b' ' s))
  | to_attribute h d c a e ↦ ground (arith, dot_alone s, decode_attribute-IsAttribute self b s)
  | to_dot h e ↦ ground (arith, dot_alone s)
  | to_ping h d c a p e ↦ ground (arith, dot_alone s)
  | to_unsupported h d c a p t e ↦ ground (arith, dot_alone s)
]

-- Everything a later test of the chain needs: the earlier words are nowhere in the text.
abbrev pub NoKeyword : Text → Type 0
NoKeyword s = ¬ Occurs (lit "HMAC") s × ¬ Occurs (lit "CONNECT") s × ¬ Occurs (lit ":") s

absent_iff : (p s : Text) → (contains p s ≡ false) ↔ ¬ Occurs p s
absent_iff p s = (λ e o. cc ((contains_iff p s).1 o), λ n. absent (Bool-cases (contains p s)) n)
  where
    absent : (contains p s ≡ true) ⊎ (contains p s ≡ false) → ¬ Occurs p s → contains p s ≡ false
    absent (inl t) n = absurd (n ((contains_iff p s).0 t))
    absent (inr f) n = f

-- A text with `CONNECT` nowhere has `DISCONNECT` nowhere.
Occurs-suffix : (p q s : Text) → Occurs (p ++ q) s → Occurs q s
Occurs-suffix p q s (before, after, e) = (before ++ p, after, e ∙ simp append_assoc)

-- `decode` panics on exactly the CONNECT lines without a third word: one is there, but neither
-- `HMAC` nor `DISCONNECT`, and the split at spaces has no third piece, or an empty one.
pub decode_command-panic_iff :
    (self : FtlCodec) (b : Bytes) (s : Text)
    → (verdict self b s ≡ panic) ↔ (
        ¬ Occurs (lit "HMAC") s
        × ¬ Occurs (lit "DISCONNECT") s
        × Occurs (lit "CONNECT") s
        × ¬ HasKey (split b' ' s))
decode_command-panic_iff self b s = (
  λ e.
      let (h, d, c, k) = (verdicts self b s).5.0 e in
      (
        (absent_iff (lit "HMAC") s).0 h,
        (absent_iff (lit "DISCONNECT") s).0 d,
        (contains_iff (lit "CONNECT") s).0 c,
        k,
      ),
  λ f. (verdicts self b s).5.1 (
    (absent_iff (lit "HMAC") s).1 f.0,
    (absent_iff (lit "DISCONNECT") s).1 f.1,
    (contains_iff (lit "CONNECT") s).1 f.2,
    f.3,
  ),
)

IsPlain-iff : (s : Text) → (IsPlain s × (contains (lit ":") s ≡ false)) ↔ NoKeyword s
IsPlain-iff s = (
  λ t. (
    (absent_iff (lit "HMAC") s).0 t.0.0,
    (absent_iff (lit "CONNECT") s).0 t.0.2,
    (absent_iff (lit ":") s).0 t.1,
  ),
  λ n. (
    (
      (absent_iff (lit "HMAC") s).1 n.0,
      (absent_iff (lit "DISCONNECT") s).1
          (λ o. n.1 (Occurs-suffix (lit "DIS") (lit "CONNECT") s o)),
      (absent_iff (lit "CONNECT") s).1 n.1,
    ),
    (absent_iff (lit ":") s).1 n.2,
  ),
)

only_unsupported :
    (self : FtlCodec) (b : Bytes) (s : Text) (e : FtlError)
    → verdict self b s ≡ err e
    → e ≡ unsupported s
only_unsupported self b s x r = elim (branch self b s) [
  | to_hmac h e ↦ ground arith
  | to_disconnect h d e ↦ ground arith
  | to_connect h d c e ↦ ground (arith, decode_connect-OfConnect self b (split b' ' s))
  | to_attribute h d c a e ↦ ground (arith, decode_attribute-IsAttribute self b s)
  | to_dot h e ↦ ground arith
  | to_ping h d c a p e ↦ ground arith
  | to_unsupported h d c a p t e ↦ ground arith
]

-- `decode` fails with one error only, which carries the whole text, and on exactly the texts other
-- than the dot that hold none of `HMAC`, `CONNECT`, `PING` and the colon.
pub decode_command-err_iff :
    (self : FtlCodec) (b : Bytes) (s : Text) (e : FtlError)
    → (verdict self b s ≡ err e)
      ↔ ((e ≡ unsupported s) × NoKeyword s × ¬ Occurs (lit "PING") s × (s ≢ lit "."))
decode_command-err_iff self b s e = (
  λ r.
      let same = only_unsupported self b s e r in
      let (plain, a, p, t) = (verdicts self b s).4.0 (r ∙ ap err same) in
      (same, (IsPlain-iff s).0 (plain, a), (absent_iff (lit "PING") s).0 p, t),
  λ f.
      let (plain, a) = (IsPlain-iff s).1 f.1 in
      (verdicts self b s).4.1 (plain, a, (absent_iff (lit "PING") s).1 f.2, f.3) ∙ ap err (sym f.0),
)

-- The four commands without data: `HMAC` anywhere is an HMAC request whatever else is in the line,
-- then `DISCONNECT` anywhere is a disconnect; only the text `.` is a dot; a ping has `PING` in it
-- and none of `HMAC`, `CONNECT` and the colon.
pub decode_command-keywords :
    (self : FtlCodec) (b : Bytes) (s : Text)
    → ((verdict self b s ≡ ok (some hmac)) ↔ Occurs (lit "HMAC") s)
      × ((verdict self b s ≡ ok (some disconnect))
          ↔ (¬ Occurs (lit "HMAC") s × Occurs (lit "DISCONNECT") s))
      × ((verdict self b s ≡ ok (some dot)) ↔ (s ≡ lit "."))
      × ((verdict self b s ≡ ok (some ping)) ↔ (NoKeyword s × Occurs (lit "PING") s))
decode_command-keywords self b s = (
  (λ e. (contains_iff (lit "HMAC") s).0 (v.0.0 e), λ o. v.0.1 ((contains_iff (lit "HMAC") s).1 o)),
  (
    λ e.
        let (h, d) = v.1.0 e in
        ((absent_iff (lit "HMAC") s).0 h, (contains_iff (lit "DISCONNECT") s).0 d),
    λ f. v.1.1 ((absent_iff (lit "HMAC") s).1 f.0, (contains_iff (lit "DISCONNECT") s).1 f.1),
  ),
  v.2,
  (
    λ e.
        let (plain, a, p) = v.3.0 e in
        ((IsPlain-iff s).0 (plain, a), (contains_iff (lit "PING") s).0 p),
    λ f.
        let (plain, a) = (IsPlain-iff s).1 f.0 in
        v.3.1 (plain, a, (contains_iff (lit "PING") s).1 f.1),
  ),
)
  where
    v : Verdicts s (verdict self b s)
    v = verdicts self b s
