-- ===== src/Cream/Tests.antt =====
-- The theorems about hw5/src/cream.c at concrete requests to an empty map of four slots.
use cse320_projects.Common.{ℕ, ◌≡◌, refl, inr, true, some, none, [], ◌∷◌, arith, ◌%◌, ◌^◌}
use cse320_projects.Hashmap.{Memory, MapKey, Hashmap, jenkins_one_at_a_time_hash, create_map}
use cse320_projects.Hashmap.Keys.{jenkins_congr}
use cse320_projects.Hashmap.Invariant.{IsValid, view}
use cse320_projects.Hashmap.Clear.{fresh, create_map-IsValid}
use cse320_projects.Cream.{
  Connection, respond, send, close, ok, not_found, serve, request_key, request_val, done, ended,
  send_value,
}
use cse320_projects.Cream.Request.{put_code, get_code}
use cse320_projects.Cream.Replies.{well_formed, serve-well_formed}
use cse320_projects.Cream.Storage.{Acceptable, AcceptableValue, serve-put, serve-get, serve-IsValid}

abbrev mem : Memory
mem = λ p. p

abbrev sample_store : Hashmap
sample_store = fresh mem 4 (jenkins_one_at_a_time_hash mem)

store_made :
    (create_map 4 (some (jenkins_one_at_a_time_hash mem)) true
      ≡ record { self = some sample_store; errno = none; result = tt })
    × IsValid mem sample_store
    × ((q : MapKey) → view mem sample_store q ≡ none)
store_made =
    create_map-IsValid mem 4 (jenkins_one_at_a_time_hash mem) (omega arith) (omega arith)
      (jenkins_congr mem)

sample_store-IsValid : IsValid mem sample_store
sample_store-IsValid = store_made.1

-- A request of the given code with a key of the given size.
abbrev request : ℕ → ℕ → Connection
request code key_size = record {
  header = record { request_code = code; key_size = key_size; value_size = 3 };
  header_read = done;
  key_base = 100;
  key_read = done;
  val_base = 200;
  val_read = done;
  response_written = done;
  value_written = done;
}

request-Acceptable : (code : ℕ) → Acceptable (request code 5)
request-Acceptable code = record {
  header = refl;
  key_low = omega arith;
  key_high = omega arith;
  key_base = omega arith;
  key_read = refl;
}

request-AcceptableValue : (code : ℕ) → AcceptableValue (request code 5)
request-AcceptableValue code = record {
  val_low = omega arith;
  val_high = omega arith;
  val_base = omega arith;
  val_read = refl;
}

serve-well_formed_example : well_formed (serve mem (request 2 5) (some sample_store)).0 ≡ true
serve-well_formed_example = serve-well_formed mem (request 2 5) (some sample_store)

abbrev put_request : Connection
put_request = request put_code 5

abbrev get_request : Connection
get_request = request get_code 5

serve-put_example :
    (m' : Hashmap) × (serve mem put_request (some sample_store)
      ≡ (respond ok 3 ∷ close ∷ [], some m'))
    × IsValid mem m'
    × (view mem m' (request_key put_request) ≡ some (request_val put_request))
unfolding ended
serve-put_example =
    serve-put mem put_request sample_store-IsValid (request-Acceptable put_code)
      (request-AcceptableValue put_code) refl

serve-get_example : serve mem get_request (some sample_store) ≡ (
  elim (view mem sample_store (request_key get_request)) [
    | none ↦ respond not_found 0 ∷ close ∷ []
    | some val ↦ respond ok (val.val_len % 2 ^ 32) ∷ send val ∷ close ∷ []
  ],
  some sample_store,
)
unfolding send_value ended
serve-get_example =
    serve-get mem get_request sample_store-IsValid (request-Acceptable get_code) refl
      (inr (store_made.2 (request_key get_request)))

serve-IsValid_example :
    (m' : Hashmap) × ((serve mem put_request (some sample_store)).1 ≡ some m') × IsValid mem m'
serve-IsValid_example =
    serve-IsValid mem put_request sample_store-IsValid (request-Acceptable put_code) (omega arith)
      (request-AcceptableValue put_code)
