-- ===== src/Connection/Services.antt =====
-- What ingest/src/connection/mod.rs calls of third-party packages: reqwest, serde_json,
-- tokio-tungstenite, rand and hex, and the process environment. They are parameters, over an
-- unknown state of the world; the hypotheses are documented behaviour of those packages.
use itgv.Base.{ℕ, ◌≤◌, ◌<◌, ◌≡◌, Option, List, Bool, within, ◌||◌, true, [], ◌∷◌}
use itgv.Std.Io.{Io}
use itgv.Std.Result.{Result}
use itgv.Std.Text.{Text}

pub record Services : Type 1 where
  pub World : Type 0
  -- `Box<dyn Error>`
  pub Error : Type 0
  -- `std::env::var`
  pub env_var : Text → World → Option Text
  -- reqwest: `client.post(url).send().await`, `client.delete(url).send().await`,
  -- `resp.json::<Value>().await`
  pub Response : Type 0
  pub Value : Type 0
  pub post : Text → Io World (Result Error Response)
  pub delete : Text → Io World (Result Error Response)
  pub json : Response → Io World (Result Error Value)
  -- serde_json: `v.get(key)`, `v.as_u64()`, and `json!({ … }).to_string()` of string members
  pub get : Text → Value → Option Value
  pub as_u64 : Value → Option ℕ
  pub json_object : List (Text × Text) → Text
  -- tokio-tungstenite: `connect_async(url)`, `write.send(Message::Text(…))`, `read.next()`; what
  -- was read is only logged
  pub WebSocket : Type 0
  pub connect_async : Text → Io World (Result Error WebSocket)
  pub send_text : WebSocket → Text → Io World (Result Error (Unit {0}))
  pub read_next : WebSocket → Io World (Unit {0})
  -- rand: one sample of `Uniform::new(low, high)`
  pub sample : ℕ → ℕ → Io World ℕ
  -- `hex::encode`
  pub hex_encode : List ℕ → Text

-- A lower-case hexadecimal digit.
abbrev pub is_hex_digit : ℕ → Bool
is_hex_digit c = within b'0' b'9' c || within b'a' b'f' c

abbrev pub AllHex : Text → Type 0
AllHex [] = Unit {0}
AllHex (c ∷ cs) = (is_hex_digit c ≡ true) × AllHex cs

-- `Uniform::new(low, high)` samples from the half-open range, and `hex::encode` writes two
-- lower-case digits for each byte.
pub record Documented (s : Services) : Type 0 where
  pub sample_range :
      (low high : ℕ) (w : s.World)
      → low < high
      → (low ≤ (s.sample low high w).1) × ((s.sample low high w).1 < high)
  pub hex_nil : s.hex_encode [] ≡ []
  pub hex_cons :
      (b : ℕ) (bs : List ℕ)
      → (hi lo : ℕ) × (s.hex_encode (b ∷ bs) ≡ hi ∷ lo ∷ s.hex_encode bs)
        × (is_hex_digit hi ≡ true)
        × (is_hex_digit lo ≡ true)
