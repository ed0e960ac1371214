-- ===== src/Server.antt =====
-- ingest/src/main.rs: the command line, the loggers and the accept loop. clap, simplelog and tokio
-- come in by the values they hand over.
pub mod Connections
pub mod Main
use itgv.Base.{◌≡◌, ◌≢◌, ◌⊎◌, inl, inr, refl, ap, Option, none, some, List, [], ◌∷◌, ◌++◌, map}
use itgv.Std.Outcome.{Outcome, ok, panic}
use itgv.Std.Result.{Result}
use itgv.Std.Text.{Text, lit}

abbrev pub default_bind_address : Text
default_bind_address = lit "0.0.0.0"

abbrev non_empty : Text → Text
non_empty [] = default_bind_address
non_empty (c ∷ cs) = c ∷ cs

-- on `matches.value_of("address")`, which clap takes from the command line or from LS_INGEST_ADDR
unfoldable pub bind_address : Option Text → Text
bind_address (some addr) = non_empty addr
bind_address none = default_bind_address

-- the address given to `TcpListener::bind`, also in the line that is logged
unfoldable pub listen_address : Option Text → Text
unfolding bind_address
listen_address arg = bind_address arg ++ lit ":8084"

-- `main` returns with an error, or unwinds where the log file cannot be created
module _ {Logger : Type 0} where
  -- `TermLogger::new` gives a logger if there is a terminal; `SimpleLogger::new` always does.
  unfoldable pub first_logger : Option Logger → Logger → Logger
  first_logger (some term_logger) simple_logger = term_logger
  first_logger none simple_logger = simple_logger

  pub first_logger_cases :
      (term_logger : Option Logger) (simple_logger : Logger)
      → (term_logger ≡ some (first_logger term_logger simple_logger))
        ⊎ ((term_logger ≡ none) × (first_logger term_logger simple_logger ≡ simple_logger))
  unfolding first_logger
  first_logger_cases (some term_logger) simple_logger = inl refl
  first_logger_cases none simple_logger = inr (refl, refl)

module _ {Logger Error Handle : Type 0} where
  abbrev push_file :
      List Logger → (Handle → Logger) → Result Error Handle → Outcome Error (List Logger)
  push_file loggers write_logger (Result.ok file) = ok (loggers ++ write_logger file ∷ [])
  push_file loggers write_logger (Result.err e) = panic

  abbrev with_path :
      List Logger
      → (Handle → Logger)
      → (Text → Result Error Handle)
      → Text
      → Outcome Error (List Logger)
  with_path loggers write_logger create [] = ok loggers
  with_path loggers write_logger create (c ∷ cs) = push_file loggers write_logger (create (c ∷ cs))

  -- The list given to `CombinedLogger::init`, on `matches.value_of("log-file")` and `File::create`.
  unfoldable pub loggers :
      Option Logger
      → Logger
      → (Handle → Logger)
      → (Text → Result Error Handle)
      → Option Text
      → Outcome Error (List Logger)
  unfolding first_logger
  loggers term_logger simple_logger write_logger create none =
      ok (first_logger term_logger simple_logger ∷ [])
  loggers term_logger simple_logger write_logger create (some path) =
      with_path (first_logger term_logger simple_logger ∷ []) write_logger create path

  pub loggers_cases :
      (term_logger : Option Logger) (simple_logger : Logger) (write_logger : Handle → Logger)
      (create : Text → Result Error Handle) (path : Option Text)
      → (((path ≡ none) ⊎ (path ≡ some []))
          × (loggers term_logger simple_logger write_logger create path
              ≡ ok (first_logger term_logger simple_logger ∷ [])))
        ⊎ ((name : Text) × (path ≡ some name)
            × (name ≢ [])
            × (((file : Handle) × (create name ≡ Result.ok file)
                  × (loggers term_logger simple_logger write_logger create path
                      ≡ ok (first_logger term_logger simple_logger ∷ write_logger file ∷ [])))
                ⊎ ((e : Error) × (create name ≡ Result.err e)
                    × (loggers term_logger simple_logger write_logger create path ≡ panic))))
  unfolding loggers
  loggers_cases term_logger simple_logger write_logger create none = inl (inl refl, refl)
  loggers_cases term_logger simple_logger write_logger create (some []) = inl (inr refl, refl)
  loggers_cases term_logger simple_logger write_logger create (some (c ∷ cs)) =
      inr (c ∷ cs, refl, (λ e. cc), created (create (c ∷ cs)))
    where
      created :
          (r : Result Error Handle)
          → ((file : Handle) × (r ≡ Result.ok file)
              × (push_file (first_logger term_logger simple_logger ∷ []) write_logger r
                  ≡ ok (first_logger term_logger simple_logger ∷ write_logger file ∷ [])))
            ⊎ ((e : Error) × (r ≡ Result.err e)
                × (push_file (first_logger term_logger simple_logger ∷ []) write_logger r ≡ panic))
      created (Result.ok file) = inl (file, refl, refl)
      created (Result.err e) = inr (e, refl, refl)

-- What the loop has done when the listener has given these results: the sockets for which
-- `Connection::init` was spawned, and the error that ended `main`, if one did.
pub record Served (Error Socket : Type 0) : Type 0 where
  pub spawned : List Socket
  pub ended_by : Option Error

module _ {Error Socket : Type 0} where
  abbrev spawn : Socket → Served Error Socket → Served Error Socket
  spawn socket s = record s { spawned = socket ∷ s.spawned }

  unfoldable pub accept_loop : List (Result Error Socket) → Served Error Socket
  accept_loop [] = record { spawned = []; ended_by = none }
  accept_loop (Result.ok socket ∷ results) = spawn socket (accept_loop results)
  accept_loop (Result.err e ∷ results) = record { spawned = []; ended_by = some e }

  -- What the listener gave: these sockets, and then the error, if there was one.
  abbrev pub Came : List (Result Error Socket) → List Socket → Option Error → Type 0
  Came results sockets none = results ≡ map Result.ok sockets
  Came results sockets (some e) =
      (rest : List (Result Error Socket)) × (results
        ≡ map Result.ok sockets ++ (Result.err e ∷ rest))

  pub Came-cons :
      (socket : Socket) (results : List (Result Error Socket)) (sockets : List Socket)
      (ended_by : Option Error)
      → Came results sockets ended_by
      → Came (Result.ok socket ∷ results) (socket ∷ sockets) ended_by
  Came-cons socket results sockets none c = ap (◌∷◌ (Result.ok socket)) c
  Came-cons socket results sockets (some e) (rest, c) = (rest, ap (◌∷◌ (Result.ok socket)) c)

  pub accept_loop-Came :
      (results : List (Result Error Socket))
      → Came results (accept_loop results).spawned (accept_loop results).ended_by
  unfolding accept_loop
  accept_loop-Came [] = refl
  accept_loop-Came (Result.ok socket ∷ results) =
      Came-cons socket results _ (accept_loop results).ended_by (accept_loop-Came results)
  accept_loop-Came (Result.err e ∷ results) = (results, refl)

-- The address to listen on, by the argument.
abbrev pub ListensOn : Option Text → Text → Type 0
ListensOn arg address =
    ((addr : Text) × (arg ≡ some addr) × (addr ≢ []) × (address ≡ addr ++ lit ":8084"))
    ⊎ (((arg ≡ none) ⊎ (arg ≡ some [])) × (address ≡ lit "0.0.0.0:8084"))

pub listen_address_cases : (arg : Option Text) → ListensOn arg (listen_address arg)
unfolding listen_address
listen_address_cases none = inr (inl refl, refl)
listen_address_cases (some []) = inr (inr refl, refl)
listen_address_cases (some (c ∷ cs)) = inl (c ∷ cs, refl, (λ e. cc), refl)
