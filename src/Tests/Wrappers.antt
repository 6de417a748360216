-- ===== src/Tests/Wrappers.antt =====
-- The texts of the errors, and the wrappers on a small platform.
use chrondb.Base.{String, Bool, Option, none, some, List, [], ◌∷◌, ◌≡◌, refl, true}
use chrondb.Base.Int.{pos}
use chrondb.Error.{open_failed, display}
use chrondb.Error.Texts.{read_error, read_error-display}
use chrondb.Client.{Link, Caller}
use chrondb.Client.Served.{plain_link}
use chrondb.Wrappers.Agreement.{
  Call, put, get, last_error, AllAlike, uni_calls, node_calls, node_calls-uni_calls,
}
use chrondb.Tests.Demo.{Store, demo, installed}

read_error-display_example :
    read_error (display (open_failed "locked")) ≡ some (open_failed "locked")
read_error-display_example = read_error-display (open_failed "locked")

abbrev as_given : String → Option String
as_given path = some path

abbrev serving_link : Link String (Bool × Store)
serving_link = plain_link demo (record { isolate = 10; thread = 11; handle = pos 0 })

abbrev handle : Caller (Bool × Store)
handle = record { next_channel = 0; side = (true, installed) }

abbrev asked : List Call
asked = put "user:1" "{}" none ∷ get "user:1" none ∷ get "user:2" none ∷ last_error ∷ []

node_calls-uni_calls_example :
    AllAlike
      (uni_calls demo serving_link (λ v. v) asked handle).0
      (node_calls demo serving_link (λ v. v) asked handle).0
    × ((node_calls demo serving_link (λ v. v) asked handle).1
        ≡ (uni_calls demo serving_link (λ v. v) asked handle).1)
node_calls-uni_calls_example =
    node_calls-uni_calls demo serving_link (λ v. v) (λ v. refl) asked handle
