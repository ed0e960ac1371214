-- ===== src/Server/Main.antt =====
-- ingest/src/main.rs: `main` from the command line to its end.
use itgv.Base.{inl, inr, sym, ◌≡◌, ◌≢◌, refl, ap, ◌∙◌, ◌⊎◌, Option, none, some, List, [], ◌∷◌}
use itgv.Server.{
  first_logger, first_logger_cases, Came, accept_loop-Came, listen_address, ListensOn,
  listen_address_cases, loggers, loggers_cases, Served, accept_loop,
}
use itgv.Std.Outcome.{Outcome, ok, err, panic}
use itgv.Std.Result.{Result}
use itgv.Std.Text.{Text}

-- How `main` stands: it unwound, or returned, or is still in the loop.
pub data Ending (Error : Type 0) : Type 0 where
  unwound : Ending Error
  returned : Result Error (Unit {0}) → Ending Error
  looping : Ending Error

-- What `main` has done: the loggers that it installed, the address that it bound, the connections
-- that it spawned.
pub record MainRun (Logger Error Socket : Type 0) : Type 0 where
  pub installed : List Logger
  pub bound : Option Text
  pub spawned : List Socket
  pub ending : Ending Error

module _ {Error : Type 0} where
  abbrev pub ending_of : Option Error → Ending Error
  ending_of none = looping
  ending_of (some e) = returned (Result.err e)

  ending_of-ne-ok : (o : Option Error) → ending_of o ≢ returned (Result.ok tt)
  ending_of-ne-ok none h = cc
  ending_of-ne-ok (some e) h = cc

module _ {Logger Error Socket : Type 0} where
  abbrev looped : List Logger → Text → Served Error Socket → MainRun Logger Error Socket
  looped installed address s = record {
    installed = installed;
    bound = some address;
    spawned = s.spawned;
    ending = ending_of s.ended_by;
  }

module _ {Logger Error Listener Socket : Type 0} where
  -- on what `TcpListener::bind` gave, and `accept` since
  abbrev listen :
      List Logger
      → Text
      → (Listener → List (Result Error Socket))
      → Result Error Listener
      → MainRun Logger Error Socket
  listen installed address accept (Result.ok listener) =
      looped installed address (accept_loop (accept listener))
  listen installed address accept (Result.err e) = record {
    installed = installed;
    bound = none;
    spawned = [];
    ending = returned (Result.err e);
  }

  abbrev with_loggers :
      (Text → Result Error Listener)
      → (Listener → List (Result Error Socket))
      → Text
      → Outcome Error (List Logger)
      → MainRun Logger Error Socket
  with_loggers bind accept address (ok installed) = listen installed address accept (bind address)
  with_loggers bind accept address (err e) = record {
    installed = [];
    bound = none;
    spawned = [];
    ending = returned (Result.err e);
  }
  with_loggers bind accept address panic = record {
    installed = [];
    bound = none;
    spawned = [];
    ending = unwound;
  }

module _ {Logger Error Handle : Type 0} where
  -- The loggers that are installed if nothing goes wrong: one for the terminal, if there is one,
  -- and else a simple one; behind it one for the log file, if a name is given that is not empty and
  -- that file can be created.
  pub record Logs (term_logger : Option Logger) (simple_logger : Logger)
      (write_logger : Handle → Logger) (create : Text → Result Error Handle)
      (log_file : Option Text) (installed : List Logger) : Type 0 where
    pub first : Logger
    pub is_first : (term_logger ≡ some first) ⊎ ((term_logger ≡ none) × (first ≡ simple_logger))
    pub all :
        (((log_file ≡ none) ⊎ (log_file ≡ some [])) × (installed ≡ first ∷ []))
        ⊎ ((name : Text) × (file : Handle) × (log_file ≡ some name)
            × (name ≢ [])
            × (create name ≡ Result.ok file)
            × (installed ≡ first ∷ write_logger file ∷ []))

module _ {Logger Error Handle Listener Socket : Type 0} where
  -- `main`, on the values of `address` and `log-file`, the loggers, `File::create`,
  -- `TcpListener::bind`, and what the listener's `accept` has given so far.
  unfoldable pub main :
      Option Logger
      → Logger
      → (Handle → Logger)
      → (Text → Result Error Handle)
      → (Text → Result Error Listener)
      → (Listener → List (Result Error Socket))
      → Option Text
      → Option Text
      → MainRun Logger Error Socket
  unfolding loggers listen_address accept_loop
  main term_logger simple_logger write_logger create bind accept address log_file =
      with_loggers bind accept (listen_address address)
        (loggers term_logger simple_logger write_logger create log_file)

  -- The three ways that `main` takes. In the last two the log file, if one was asked for, is there.
  pub data MainCases (term_logger : Option Logger) (simple_logger : Logger)
      (write_logger : Handle → Logger) (create : Text → Result Error Handle)
      (bind : Text → Result Error Listener) (accept : Listener → List (Result Error Socket))
      (address : Text) (log_file : Option Text) (run : MainRun Logger Error Socket) : Type 0 where
    no_log_file :
        (name : Text) (e : Error)
        → log_file ≡ some name
        → name ≢ []
        → create name ≡ Result.err e
        → run ≡ record { installed = []; bound = none; spawned = []; ending = unwound }
        → MainCases term_logger simple_logger write_logger create bind accept address log_file run
    no_listener :
        (e : Error)
        → Logs term_logger simple_logger write_logger create log_file run.installed
        → bind address ≡ Result.err e
        → run.bound ≡ none
        → run.spawned ≡ []
        → run.ending ≡ returned (Result.err e)
        → MainCases term_logger simple_logger write_logger create bind accept address log_file run
    listens :
        (listener : Listener)
        → Logs term_logger simple_logger write_logger create log_file run.installed
        → bind address ≡ Result.ok listener
        → run.bound ≡ some address
        → (ended_by : Option Error) → Came (accept listener) run.spawned ended_by
        → run.ending ≡ ending_of ended_by
        → MainCases term_logger simple_logger write_logger create bind accept address log_file run

  module _ (term_logger : Option Logger) (simple_logger : Logger) (write_logger : Handle → Logger)
      (create : Text → Result Error Handle) (bind : Text → Result Error Listener)
      (accept : Listener → List (Result Error Socket)) where
    abbrev Ways : Text → Option Text → MainRun Logger Error Socket → Type 0
    Ways = MainCases term_logger simple_logger write_logger create bind accept

    MainCases-ne-ok :
        (address : Text) (log_file : Option Text) (run : MainRun Logger Error Socket)
        → Ways address log_file run
        → run.ending ≢ returned (Result.ok tt)
    MainCases-ne-ok address log_file run (no_log_file name e l n c r) h = cc (ap (λ r. r.ending) r)
    MainCases-ne-ok address log_file run (no_listener e i b o s r) h = cc
    MainCases-ne-ok address log_file run (listens l i b o x s r) h = ending_of-ne-ok x (sym r ∙ h)

    listen-MainCases :
        (address : Text) (log_file : Option Text) (installed : List Logger)
        (r : Result Error Listener)
        → Logs term_logger simple_logger write_logger create log_file installed
        → bind address ≡ r
        → Ways address log_file (listen installed address accept r)
    listen-MainCases address log_file installed (Result.ok l) i e =
        listens l i e refl (accept_loop (accept l)).ended_by (accept_loop-Came (accept l)) refl
    listen-MainCases address log_file installed (Result.err x) i e =
        no_listener x i e refl refl refl

    main_cases :
        (address log_file : Option Text)
        → Ways
            (listen_address address)
            log_file
            (main term_logger simple_logger write_logger create bind accept address log_file)
    unfolding main
    main_cases address log_file =
        elim (loggers_cases term_logger simple_logger write_logger create log_file) [
          | inl (no_name, e) ↦ rw e (
              listen-MainCases _ log_file _ _
                (record {
                  first = first_logger term_logger simple_logger;
                  is_first = first_logger_cases term_logger simple_logger;
                  all = inl (no_name, refl);
                })
                refl)
          | inr (name, is_name, n, inl (file, c, e)) ↦ rw e (
              listen-MainCases _ log_file _ _
                (record {
                  first = first_logger term_logger simple_logger;
                  is_first = first_logger_cases term_logger simple_logger;
                  all = inr (name, file, is_name, n, c, refl);
                })
                refl)
          | inr (name, is_name, n, inr (x, c, e)) ↦ rw e (no_log_file name x is_name n c refl)
        ]

    -- `main` unwinds where a log file of a name that is not empty cannot be created, with nothing
    -- installed, bound or spawned, and only there. Else it has installed a logger, for the terminal
    -- if there is one, and one for the log file behind it if a name is given that is not empty. Then
    -- it returns with the error where it cannot listen, and nothing is spawned; and where it can, it
    -- listens on the address asked for, has spawned a connection for each socket that came before
    -- the first error, in the order of arrival, and has returned with that error, or is still in the
    -- loop if there was none. It never returns without an error. The address asked for is
    -- port 8084 of the one that was given, and of 0.0.0.0 where none was given or an empty one.
    pub main-MainCases :
        (address log_file : Option Text)
        → MainCases term_logger simple_logger write_logger create bind accept
            (listen_address address)
            log_file
            (main term_logger simple_logger write_logger create bind accept address log_file)
          × ((main term_logger simple_logger write_logger create bind accept address
                log_file).ending
              ≢ returned (Result.ok tt))
          × ListensOn address (listen_address address)
    main-MainCases address log_file =
        let c = main_cases address log_file in
        (c, MainCases-ne-ok (listen_address address) log_file _ c, listen_address_cases address)
