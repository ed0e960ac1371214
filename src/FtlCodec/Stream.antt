-- ===== src/FtlCodec/Stream.antt =====
-- ingest/src/ftl_codec.rs, `decode` over a stream that arrives in pieces.
use itgv.Base.{
  ℕ, zero, suc, ◌+◌, ◌≤◌, ◌≡◌, ◌≢◌, refl, sym, ap, ◌∙◌, Bool, true, false, if◌then◌else◌, Option,
  none, some, List, [], ◌∷◌, ◌++◌, ◌⊎◌, inl, inr, arith, Option-cases, length, take, drop,
  take-append_of_le, drop-append_of_le, length-drop, append-nil, append_assoc,
}
use itgv.FtlCodec.{
  FtlCommand, FtlError, FtlCodec, Decoded, find_delimiter, decode, decode_command, decode_connect,
  decode_attribute,
}
use itgv.FtlCodec.Framing.{FirstAt, find_delimiter_iff, find_delimiter-append}
use itgv.Std.Outcome.{Outcome, ok, err, panic}
use itgv.Std.Text.{Text, split}
use itgv.Std.Utf8.{Bytes, from_utf8_lossy}

abbrev pub Item : Type 0
Item = Outcome FtlError (Option FtlCommand)

-- `decode` passes the buffer through `decode_command` untouched.
abbrev with_buf : Decoded → Bytes → Decoded
with_buf d buf = record d { buf = buf }

decode_connect-buf :
    (self : FtlCodec) (b : Bytes) (cs : List Text)
    → decode_connect self b cs ≡ with_buf (decode_connect self [] cs) b
unfolding decode_connect
decode_connect-buf self b cs = ground arith

decode_attribute-buf :
    (self : FtlCodec) (b : Bytes) (cs : List Text)
    → decode_attribute self b cs ≡ with_buf (decode_attribute self [] cs) b
unfolding decode_attribute
decode_attribute-buf self b cs = ground arith

pub decode_command-buf :
    (self : FtlCodec) (b : Bytes) (command : Text)
    → decode_command self b command ≡ with_buf (decode_command self [] command) b
unfolding decode_command
decode_command-buf self b command = ground (
  arith,
  decode_connect-buf self b (split b' ' command),
  decode_attribute-buf self b (split b':' command),
)

decode_connect-ne-none :
    (self : FtlCodec) (b : Bytes) (cs : List Text) → (decode_connect self b cs).result ≢ ok none
unfolding decode_connect
decode_connect-ne-none self b cs = ground arith

decode_attribute-ne-none :
    (self : FtlCodec) (b : Bytes) (cs : List Text) → (decode_attribute self b cs).result ≢ ok none
unfolding decode_attribute
decode_attribute-ne-none self b cs = ground arith

decode_command-ne-none :
    (self : FtlCodec) (b : Bytes) (command : Text)
    → (decode_command self b command).result ≢ ok none
unfolding decode_command
decode_command-ne-none self b command = ground (
  arith,
  decode_connect-ne-none self b (split b' ' command),
  decode_attribute-ne-none self b (split b':' command),
)

pub decode-found :
    (self : FtlCodec) (b : Bytes) (i : ℕ)
    → find_delimiter b ≡ some i
    → decode self b ≡ decode_command self (drop (i + 4) b) (from_utf8_lossy (take i b))
unfolding decode
decode-found self b i h = rw (h, decode)

pub decode-missing :
    (self : FtlCodec) (b : Bytes)
    → find_delimiter b ≡ none
    → decode self b ≡ record { codec = self; buf = b; result = ok none }
unfolding decode
decode-missing self b h = rw (h, decode)

-- No item is waiting in the buffer.
abbrev pub pending : Item → Bool
pending (ok none) = true
pending (ok (some _)) = false
pending (err _) = false
pending panic = false

not_pending : (r : Item) → r ≢ ok none → pending r ≡ false
not_pending (ok none) h = absurd (h refl)
not_pending (ok (some _)) h = refl
not_pending (err _) h = refl
not_pending panic h = refl

decode-append :
    (self : FtlCodec) (b more : Bytes) (i : ℕ)
    → find_delimiter b ≡ some i
    → i + 4 ≤ length b
    → decode self (b ++ more) ≡ with_buf (decode self b) (drop (i + 4) b ++ more)
decode-append self b more i h fits =
    decode-found self (b ++ more) i (find_delimiter-append b more i h)
    ∙ rw (take-append_of_le i b more (omega arith), drop-append_of_le (i + 4) b more fits)
        (decode_command-buf self _ _
          ∙ rw (decode-found self b i h) (
              ap (λ d. with_buf d (drop (i + 4) b ++ more))
                (sym (decode_command-buf self (drop (i + 4) b) _))))

-- `decode` took the text before the delimiter at some place, and goes on behind it.
pub record Takes (self : FtlCodec) (b : Bytes) : Type 0 where
  pub index : ℕ
  pub first : FirstAt b index
  pub has_item : pending (decode self b).result ≡ false
  pub rest : (decode self b).buf ≡ drop (index + 4) b
  pub more_input :
      (more : Bytes)
      → decode self (b ++ more) ≡ with_buf (decode self b) ((decode self b).buf ++ more)

Takes-found : (self : FtlCodec) (b : Bytes) (i : ℕ) → find_delimiter b ≡ some i → Takes self b
Takes-found self b i e = record {
  index = i;
  first = f;
  has_item = rw (decode-found self b i e) (not_pending _ (decode_command-ne-none self _ _));
  rest = rest;
  more_input = λ more. decode-append self b more i e f.fits ∙ rw rest;
}
  where
    f : FirstAt b i
    f = ((find_delimiter_iff b).0 i).0 e

    rest : (decode self b).buf ≡ drop (i + 4) b
    rest = rw (decode-found self b i e) (ap (λ d. d.buf) (decode_command-buf self _ _))

-- Either nothing is there and nothing changes, or an item is taken.
pub decode_cases :
    (self : FtlCodec) (b : Bytes)
    → (decode self b ≡ record { codec = self; buf = b; result = ok none }) ⊎ Takes self b
decode_cases self b = elim (Option-cases (find_delimiter b)) [
  | inl e ↦ inl (decode-missing self b e)
  | inr (i, e) ↦ inr (Takes-found self b i e)
]

-- An item takes at least the four bytes of its delimiter off the buffer.
pub decode_progress :
    (self : FtlCodec) (b : Bytes)
    → pending (decode self b).result ≡ false
    → length (decode self b).buf + 4 ≤ length b
decode_progress self b h = elim (decode_cases self b) [
  | inl e ↦ cc (ap (λ d. pending d.result) e)
  | inr t ↦ omega (arith, ap length t.rest, length-drop (t.index + 4) b, t.first.fits)
]

-- The items that lie in a buffer, and what is left when `decode` finds no more.
pub record Drained : Type 0 where
  pub items : List Item
  pub codec : FtlCodec
  pub left : Bytes

abbrev pub put : Item → Drained → Drained
put i d = record d { items = i ∷ d.items }

drain : ℕ → FtlCodec → Bytes → Drained
drain zero c b = record { items = []; codec = c; left = b }
drain (suc fuel) c b =
    let d = decode c b in
    let rest = drain fuel d.codec d.buf in
    if pending d.result then record { items = []; codec = c; left = b } else put d.result rest

-- Each item takes at least four bytes, so a round for each byte is enough.
unfoldable pub drain_all : FtlCodec → Bytes → Drained
unfolding drain
drain_all c b = drain (length b) c b

-- What the reader of the stream may do, in any order: append what arrived, or call `decode`.
pub data Act : Type 0 where
  feed : Bytes → Act
  poll : Act

unfoldable pub run : List Act → FtlCodec → Bytes → Drained
run [] c b = record { items = []; codec = c; left = b }
run (feed bs ∷ acts) c b = run acts c (b ++ bs)
run (poll ∷ acts) c b =
    let d = decode c b in
    let rest = run acts d.codec d.buf in if pending d.result then rest else put d.result rest

abbrev pub fed : List Act → Bytes
fed [] = []
fed (feed bs ∷ acts) = bs ++ fed acts
fed (poll ∷ acts) = fed acts

drain-fuel :
    (f g : ℕ) (c : FtlCodec) (b : Bytes) → length b ≤ f → length b ≤ g → drain f c b ≡ drain g c b
unfolding drain
drain-fuel zero zero c b h k = refl
drain-fuel zero (suc g) c b h k = elim (decode_cases c b) [
  | inl e ↦ rw (e, drain)
  | inr t ↦ absurd (omega (arith, t.first.fits))
]
drain-fuel (suc f) zero c b h k = elim (decode_cases c b) [
  | inl e ↦ rw (e, drain)
  | inr t ↦ absurd (omega (arith, t.first.fits))
]
drain-fuel (suc f) (suc g) c b h k = elim (decode_cases c b) [
  | inl e ↦ rw (e, drain)
  | inr t ↦
      let shorter = decode_progress c b t.has_item in
      ground (
        arith,
        t.has_item,
        shorter,
        drain-fuel f g (decode c b).codec (decode c b).buf (omega (arith, shorter))
            (omega (arith, shorter)),
      )
]

drain_all-pending :
    (c : FtlCodec) (b : Bytes)
    → decode c b ≡ record { codec = c; buf = b; result = ok none }
    → drain_all c b ≡ record { items = []; codec = c; left = b }
unfolding drain_all
drain_all-pending c [] e = refl
drain_all-pending c (x ∷ b) e = rw (e, drain)

pub drain_all-put :
    (c : FtlCodec) (b : Bytes)
    → pending (decode c b).result ≡ false
    → drain_all c b ≡ put (decode c b).result (drain_all (decode c b).codec (decode c b).buf)
unfolding drain_all
drain_all-put c [] h = absurd (omega (arith, decode_progress c [] h))
drain_all-put c (x ∷ b) h =
    rw (h, drain)
      (ap (put (decode c (x ∷ b)).result)
        (drain-fuel _ _ _ _ (omega (arith, decode_progress c (x ∷ b) h)) (omega arith)))

-- The items read so far, and behind them those that still lie in the buffer.
abbrev pub finish : Drained → Drained
finish d = record (drain_all d.codec d.left) { items = d.items ++ (drain_all d.codec d.left).items }

finish-run_poll :
    (c : FtlCodec) (b : Bytes) (acts : List Act)
    → finish (run acts (decode c b).codec (decode c b).buf)
      ≡ drain_all (decode c b).codec ((decode c b).buf ++ fed acts)
    → finish (run (poll ∷ acts) c b) ≡ drain_all c (b ++ fed acts)
unfolding run
finish-run_poll c b acts ih = elim (decode_cases c b) [
  | inl e ↦ rw (e, run) (rw e at ih)
  | inr t ↦
      let whole = t.more_input (fed acts) in
      let has_item = ap (λ d. pending d.result) whole ∙ t.has_item in
      rw (drain_all-put c (b ++ fed acts) has_item)
        (rw (t.has_item, run) (rw whole (ap (put (decode c b).result) ih)))
]

-- However the bytes are cut into pieces and whenever `decode` is called between them, the items
-- read so far followed by those still in the buffer are the items of the whole input, in order,
-- and the bytes left over are the same.
pub finish-run :
    (acts : List Act) (c : FtlCodec) (b : Bytes)
    → finish (run acts c b) ≡ drain_all c (b ++ fed acts)
unfolding run
finish-run [] c b = rw append-nil
finish-run (feed bs ∷ acts) c b = finish-run acts c (b ++ bs) ∙ rw append_assoc
finish-run (poll ∷ acts) c b =
    finish-run_poll c b acts (finish-run acts (decode c b).codec (decode c b).buf)
