-- ===== src/Cream/Replies.antt =====
-- What a client of hw5/src/cream.c sees, whatever the map is.
use cse320_projects.Common.{
  ◌≡◌, ◌≢◌, refl, Bool, true, false, Option, List, [], ◌∷◌, arith, if◌then◌else◌, ◌==◌, ℕ, ◌%◌, ◌^◌,
  ◌&&◌, not, ◌||◌,
}
use cse320_projects.Hashmap.{Memory, Hashmap, MapVal}
use cse320_projects.Hashmap.Operations.{put, get, delete, clear_map}
use cse320_projects.Cream.{
  request_key, request_val, valuesize_valid, Connection, Event, respond, send, close, exit,
  ResponseCode, ok, unsupported, bad_request, not_found, serve, serve_put, serve_get, serve_evict,
  serve_clear, keysize_valid, reply, ended, after_read, after_calloc, send_value, Rio, done,
  interrupted, failed, Served,
}
use cse320_projects.Cream.Request.{put_code, get_code, evict_code, clear_code}

abbrev pub is_ok : ResponseCode → Bool
is_ok ok = true
is_ok _ = false

-- A `Close`, or the end of the process, once and last; before that there is at most one response
-- header, and a value only behind an OK header that gives its length modulo 2 ^ 32.
unfoldable pub last_event : List Event → Bool
last_event (close ∷ []) = true
last_event (exit ∷ []) = true
last_event _ = false

unfoldable pub well_formed : List Event → Bool
well_formed (respond code n ∷ send val ∷ rest) =
    if is_ok code then (n == val.val_len % 2 ^ 32) && last_event rest else false
well_formed (respond code n ∷ rest) = last_event rest
well_formed events = last_event events

-- A round whose events are well formed.
unfoldable Orderly : Served → Type 0
Orderly s = well_formed s.0 ≡ true

unfoldable OrderlyEvents : List Event → Type 0
OrderlyEvents events = well_formed events ≡ true

-- The parts of a round.
after_read-Orderly :
    (r : Rio) (hashmap : Option Hashmap) (rest : Served)
    → Orderly rest
    → Orderly (after_read r hashmap rest)
unfolding Orderly after_read well_formed last_event
after_read-Orderly done hashmap rest h = h
after_read-Orderly interrupted hashmap rest h = refl
after_read-Orderly failed hashmap rest h = refl

after_calloc-Orderly :
    (base : ℕ) (hashmap : Option Hashmap) (rest : Served)
    → Orderly rest
    → Orderly (after_calloc base hashmap rest)
unfolding Orderly after_calloc well_formed last_event
after_calloc-Orderly base hashmap rest h = ground (arith, h)

respond-ended :
    (code : ResponseCode) (n : ℕ) (r : Rio) → well_formed (respond code n ∷ ended r) ≡ true
unfolding well_formed last_event ended
respond-ended code n done = refl
respond-ended code n interrupted = refl
respond-ended code n failed = refl

ended-last : (r : Rio) → last_event (ended r) ≡ true
unfolding last_event ended
ended-last done = refl
ended-last interrupted = refl
ended-last failed = refl

respond-send_value :
    (val : MapVal) (r s : Rio)
    → well_formed (respond ok (val.val_len % 2 ^ 32) ∷ send_value val r s) ≡ true
unfolding well_formed last_event send_value
respond-send_value val done s = ground (arith, ended-last s)
respond-send_value val interrupted s = refl
respond-send_value val failed s = refl

-- A choice between two rounds.
choice-Orderly : (b : Bool) (s t : Served) → Orderly s → Orderly t → Orderly (if b then s else t)
choice-Orderly true s t h k = h
choice-Orderly false s t h k = k

module _ (mem : Memory) (c : Connection) (hashmap : Option Hashmap) where
  reply-OrderlyEvents : (code : ResponseCode) (n : ℕ) → OrderlyEvents (reply mem c code n)
  unfolding reply OrderlyEvents
  reply-OrderlyEvents code n = respond-ended code n c.response_written

  value-OrderlyEvents :
      (val : MapVal)
      → OrderlyEvents
          (respond ok (val.val_len % 2 ^ 32) ∷ send_value val c.response_written c.value_written)
  unfolding OrderlyEvents
  value-OrderlyEvents val = respond-send_value val c.response_written c.value_written

  events-Orderly :
      (events : List Event) (m : Option Hashmap) → OrderlyEvents events → Orderly (events, m)
  unfolding Orderly OrderlyEvents
  events-Orderly events m h = h

  either-Orderly :
      (b : Bool) (xs ys : List Event) (m : Option Hashmap)
      → OrderlyEvents xs
      → OrderlyEvents ys
      → Orderly ((if b then xs else ys), m)
  either-Orderly true xs ys m h k = events-Orderly xs m h
  either-Orderly false xs ys m h k = events-Orderly ys m k

  reply-Orderly :
      (code : ResponseCode) (n : ℕ) (m : Option Hashmap) → Orderly (reply mem c code n, m)
  reply-Orderly code n m = events-Orderly _ m (reply-OrderlyEvents code n)

  serve_put-Orderly : Orderly (serve_put mem c hashmap)
  unfolding serve_put
  serve_put-Orderly =
      let outcome = put mem (request_key c) hashmap (request_val c) true in
      choice-Orderly
        (not (keysize_valid c.header.key_size) || not (valuesize_valid c.header.value_size)) _ _
        (reply-Orderly bad_request 0 hashmap)
        (after_calloc-Orderly c.key_base hashmap _ (
          after_calloc-Orderly c.val_base hashmap _ (
            after_read-Orderly c.key_read hashmap _ (
              after_read-Orderly c.val_read hashmap _ (
                either-Orderly outcome.result _ _ outcome.self
                  (reply-OrderlyEvents ok c.header.value_size)
                  (reply-OrderlyEvents bad_request 0))))))

  serve_get-Orderly : Orderly (serve_get mem c hashmap)
  unfolding serve_get
  serve_get-Orderly =
      let outcome = get mem (request_key c) hashmap in
      choice-Orderly (not (keysize_valid c.header.key_size)) _ _
        (reply-Orderly bad_request 0 hashmap)
        (after_calloc-Orderly c.key_base hashmap _ (
          after_read-Orderly c.key_read hashmap _ (
            either-Orderly (not (outcome.result.val_base == 0)) _ _ outcome.self
              (value-OrderlyEvents outcome.result) (reply-OrderlyEvents not_found 0))))

  serve_evict-Orderly : Orderly (serve_evict mem c hashmap)
  unfolding serve_evict
  serve_evict-Orderly =
      choice-Orderly (not (keysize_valid c.header.key_size)) _ _
        (reply-Orderly bad_request 0 hashmap)
        (after_calloc-Orderly c.key_base hashmap _ (
          after_read-Orderly c.key_read hashmap _
            (reply-Orderly ok 0 (delete mem (request_key c) hashmap).self)))

  serve_clear-Orderly : Orderly (serve_clear mem c hashmap)
  unfolding serve_clear
  serve_clear-Orderly = reply-Orderly ok 0 (clear_map hashmap).self

  serve-Orderly : Orderly (serve mem c hashmap)
  unfolding serve
  serve-Orderly =
      let code = c.header.request_code in
      after_read-Orderly c.header_read hashmap _ (
        choice-Orderly (code == put_code) _ _ serve_put-Orderly (
          choice-Orderly (code == get_code) _ _ serve_get-Orderly (
            choice-Orderly (code == evict_code) _ _ serve_evict-Orderly (
              choice-Orderly (code == clear_code) _ _ serve_clear-Orderly
                (reply-Orderly unsupported 0 hashmap)))))

  -- Whatever the request, the map and the connection do, a round ends with one call of `Close` or
  -- with the one `exit` of the process, and nothing behind it; before that it writes at most one
  -- response header, and sends a value only behind an OK header that gives its length modulo 2 ^
  -- 32.
  pub serve-well_formed : well_formed (serve mem c hashmap).0 ≡ true
  unfolding Orderly
  serve-well_formed = serve-Orderly

  -- A request code that is none of the four is answered UNSUPPORTED, and the map is left alone.
  serve-unsupported :
      c.header_read ≡ done
      → c.header.request_code ≢ put_code
      → c.header.request_code ≢ get_code
      → c.header.request_code ≢ evict_code
      → c.header.request_code ≢ clear_code
      → serve mem c hashmap ≡ (reply mem c unsupported 0, hashmap)
  unfolding serve after_read
  serve-unsupported live p g e k = ground arith
