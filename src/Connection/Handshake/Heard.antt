-- ===== src/Connection/Handshake/Heard.antt =====
-- ingest/src/ftl_codec.rs, `encode`: what a client is sent.
use itgv.Base.{◌≡◌, refl, sym, ap, ◌∙◌, List, [], ◌∷◌, ◌++◌, append_assoc, append-nil}
use itgv.Connection.Frame.Order.{written_after}
use itgv.Connection.Remote.{
  Event, started, ended, opened, sent_text, posted, deleted, allocated, freed, wrote, printed,
}
use itgv.FtlCodec.{new, encode}
use itgv.Std.Text.{Text}
use itgv.Std.Utf8.{Bytes, as_bytes}

-- The bytes that the encoder has put on the wire.
abbrev pub heard : List Event → Bytes
heard [] = []
heard (wrote item ∷ es) = (encode new item (heard es)).1
heard (started _ ∷ es) = heard es
heard (ended _ ∷ es) = heard es
heard (opened _ ∷ es) = heard es
heard (sent_text _ ∷ es) = heard es
heard (posted _ ∷ es) = heard es
heard (deleted _ ∷ es) = heard es
heard (allocated _ ∷ es) = heard es
heard (freed _ ∷ es) = heard es
heard (printed _ ∷ es) = heard es

abbrev pub concat : List Text → Text
concat [] = []
concat (item ∷ items) = item ++ concat items

pub as_bytes-append : (s t : Text) → as_bytes (s ++ t) ≡ as_bytes s ++ as_bytes t
unfolding as_bytes
as_bytes-append [] t = refl
as_bytes-append (c ∷ s) t =
    rw (as_bytes-append s t) (sym (append_assoc _ (as_bytes s) (as_bytes t)))

heard-wrote : (item : Text) (es : List Event) → heard (wrote item ∷ es) ≡ heard es ++ as_bytes item
unfolding encode
heard-wrote item es = refl

-- What was heard stays.
pub heard-append :
    (more es : List Event) → (bytes : Bytes) × (heard (more ++ es) ≡ heard es ++ bytes)
heard-append [] es = ([], sym (append-nil (heard es)))
heard-append (wrote item ∷ more) es =
    let (bytes, e) = heard-append more es in
    (
      bytes ++ as_bytes item,
      heard-wrote item (more ++ es)
          ∙ ap (λ b. b ++ as_bytes item) e
          ∙ append_assoc (heard es) bytes (as_bytes item),
    )
heard-append (started _ ∷ more) es = heard-append more es
heard-append (ended _ ∷ more) es = heard-append more es
heard-append (opened _ ∷ more) es = heard-append more es
heard-append (sent_text _ ∷ more) es = heard-append more es
heard-append (posted _ ∷ more) es = heard-append more es
heard-append (deleted _ ∷ more) es = heard-append more es
heard-append (allocated _ ∷ more) es = heard-append more es
heard-append (freed _ ∷ more) es = heard-append more es
heard-append (printed _ ∷ more) es = heard-append more es

pub heard-written_after :
    (es : List Event) (items : List Text)
    → heard (written_after es items) ≡ heard es ++ as_bytes (concat items)
heard-written_after es [] = unfold as_bytes in sym (append-nil (heard es))
heard-written_after es (item ∷ items) =
    heard-written_after (wrote item ∷ es) items
    ∙ ap (λ b. b ++ as_bytes (concat items)) (heard-wrote item es)
    ∙ append_assoc (heard es) (as_bytes item) (as_bytes (concat items))
    ∙ ap (λ b. heard es ++ b) (sym (as_bytes-append item (concat items)))
