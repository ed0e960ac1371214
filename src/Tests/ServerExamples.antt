-- ===== src/Tests/ServerExamples.antt =====
-- The server's theorems at concrete arguments.
use itgv.Base.{ℕ, ◌≢◌, none, some, []}
use itgv.Server.{listen_address, ListensOn}
use itgv.Server.Main.{returned, main, MainCases, main-MainCases}
use itgv.Std.Result.{Result}
use itgv.Std.Text.{Text, lit}

-- Every file can be created.
abbrev create_file : Text → Result Text Text
create_file name = Result.ok name

-- The address is taken.
abbrev cannot_bind : Text → Result Text Text
cannot_bind address = Result.err (lit "in use")

main-MainCases_example :
    MainCases none
      (lit "simple")
      (λ file. file)
      create_file
      cannot_bind
      (λ listener. [])
      (listen_address none)
      (some (lit "log"))
      (main {Socket = ℕ} none
        (lit "simple")
        (λ file. file)
        create_file
        cannot_bind
        (λ listener. [])
        none
        (some (lit "log")))
    × ((main {Socket = ℕ} none
          (lit "simple")
          (λ file. file)
          create_file
          cannot_bind
          (λ listener. [])
          none
          (some (lit "log"))).ending
        ≢ returned (Result.ok tt))
    × ListensOn none (listen_address none)
main-MainCases_example =
    main-MainCases {Socket = ℕ} none (lit "simple") (λ file. file) create_file cannot_bind
      (λ listener. []) none (some (lit "log"))
