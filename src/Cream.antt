-- ===== src/Cream.antt =====
-- The worker of the cache server, `thread_routine` of hw5/src/cream.c, with hw5/include/cream.h.
--
-- `serve` is one round of its loop, from the connection that `dequeue` gave to the `Close` or the
-- `continue`, or to the `exit` of the process. What the sockets do is an argument: the header that
-- was read, the buffers that `Calloc` gave, and how each `Rio_readn` and `Rio_writen` ended. Like
-- `Calloc`, they call `exit` by `unix_error` of csapp.c when they fail. `errno` is tested behind some
-- of them only. What the worker does is a list of events; `close` is the call of `Close`, which may
-- itself fail and end the process, with nothing behind it in the round.
pub mod Request
pub mod Replies
pub mod Storage
mod Tests
use cse320_projects.Common.{
  ℕ, ◌≡◌, Bool, true, false, Option, none, some, List, [], ◌∷◌, ltb, ◌||◌, ◌==◌, not, if◌then◌else◌,
  ◌%◌, ◌^◌,
}
use cse320_projects.Hashmap.{Memory, MapKey, MapVal, Hashmap, Outcome}
use cse320_projects.Hashmap.Operations.{put, get, delete, clear_map}
use cse320_projects.Cream.Request.{put_code, get_code, evict_code, clear_code}

abbrev pub min_key_size : ℕ
min_key_size = 1

abbrev pub max_key_size : ℕ
max_key_size = 2048

abbrev pub min_value_size : ℕ
min_value_size = 1

abbrev pub max_value_size : ℕ
max_value_size = 4096

pub data ResponseCode : Type 0 where
  ok unsupported bad_request not_found : ResponseCode

-- The numbers on the wire.
abbrev pub response_code : ResponseCode → ℕ
response_code ok = 200
response_code unsupported = 220
response_code bad_request = 400
response_code not_found = 404

pub record RequestHeader : Type 0 where
  pub request_code : ℕ
  pub key_size : ℕ
  pub value_size : ℕ

-- How a call of `Rio_readn` or `Rio_writen` ends: it returns, and `errno` is then EINTR or EPIPE or
-- it is not; or it fails, which ends the process by `unix_error`.
pub data Rio : Type 0 where
  done interrupted failed : Rio

-- What the connection does while a request is served, and the buffers of `Calloc`, 0 for NULL.
pub record Connection : Type 0 where
  pub header : RequestHeader
  pub header_read : Rio
  pub key_base : ℕ
  pub key_read : Rio
  pub val_base : ℕ
  pub val_read : Rio
  pub response_written : Rio
  pub value_written : Rio

-- What the worker does: `Rio_writen` of a response header, of a value, `Close`, and `exit`.
pub data Event : Type 0 where
  respond : ResponseCode → ℕ → Event
  send : MapVal → Event
  close : Event
  exit : Event

unfoldable pub keysize_valid : ℕ → Bool
keysize_valid key_size =
    if ltb key_size min_key_size || ltb max_key_size key_size then false else true

unfoldable pub valuesize_valid : ℕ → Bool
valuesize_valid value_size =
    if ltb value_size min_value_size || ltb max_value_size value_size then false else true

abbrev pub Served : Type 0
Served = List Event × Option Hashmap

-- After a call whose `errno` is not tested.
unfoldable pub ended : Rio → List Event
ended done = close ∷ []
ended interrupted = close ∷ []
ended failed = exit ∷ []

-- After a `Rio_readn`, with what comes behind it.
unfoldable pub after_read : Rio → Option Hashmap → Served → Served
after_read done hashmap rest = rest
after_read interrupted hashmap rest = (close ∷ [], hashmap)
after_read failed hashmap rest = (exit ∷ [], hashmap)

-- After a `Calloc`, which ends the process when there is no memory.
unfoldable pub after_calloc : ℕ → Option Hashmap → Served → Served
after_calloc base hashmap rest = if base == 0 then (exit ∷ [], hashmap) else rest

-- After the response header, whose `errno` is tested when a value follows.
unfoldable pub send_value : MapVal → Rio → Rio → List Event
send_value val done value_written = send val ∷ ended value_written
send_value val interrupted value_written = close ∷ []
send_value val failed value_written = exit ∷ []

abbrev pub request_key : Connection → MapKey
request_key c = record { key_base = c.key_base; key_len = c.header.key_size }

abbrev pub request_val : Connection → MapVal
request_val c = record { val_base = c.val_base; val_len = c.header.value_size }

module _ (mem : Memory) (c : Connection) where
  -- A response header and the end of the round.
  unfoldable pub reply : ResponseCode → ℕ → List Event
  unfolding ended
  reply code value_size = respond code value_size ∷ ended c.response_written

  unfoldable pub serve_put : Option Hashmap → Served
  unfolding keysize_valid valuesize_valid reply after_calloc after_read
  serve_put hashmap =
      if not (keysize_valid c.header.key_size) || not (valuesize_valid c.header.value_size)
      then (reply bad_request 0, hashmap)
      else after_calloc c.key_base hashmap (
          after_calloc c.val_base hashmap (
            after_read c.key_read hashmap (
              after_read c.val_read hashmap (
                let outcome = put mem (request_key c) hashmap (request_val c) true in
                (
                  if outcome.result then reply ok c.header.value_size else reply bad_request 0,
                  outcome.self,
                )))))

  -- `value_size` of the response is a `uint32_t`, `val_len` a `size_t`.
  unfoldable pub serve_get : Option Hashmap → Served
  unfolding keysize_valid reply after_calloc after_read send_value
  serve_get hashmap =
      if not (keysize_valid c.header.key_size)
      then (reply bad_request 0, hashmap)
      else after_calloc c.key_base hashmap (
          after_read c.key_read hashmap (
            let outcome = get mem (request_key c) hashmap in
            let val = outcome.result in
            (
              if not (val.val_base == 0)
                  then respond ok (val.val_len % 2 ^ 32)
                    ∷ send_value val c.response_written c.value_written
                  else reply not_found 0,
              outcome.self,
            )))

  unfoldable pub serve_evict : Option Hashmap → Served
  unfolding keysize_valid reply after_calloc after_read
  serve_evict hashmap =
      if not (keysize_valid c.header.key_size)
      then (reply bad_request 0, hashmap)
      else after_calloc c.key_base hashmap
          (after_read c.key_read hashmap ((reply ok 0, (delete mem (request_key c) hashmap).self)))

  unfoldable pub serve_clear : Option Hashmap → Served
  unfolding reply
  serve_clear hashmap = (reply ok 0, (clear_map hashmap).self)

  unfoldable pub serve : Option Hashmap → Served
  unfolding serve_put serve_get serve_evict serve_clear after_read reply
  serve hashmap = after_read c.header_read hashmap (
      if c.header.request_code == put_code
      then serve_put hashmap
      else if c.header.request_code == get_code
      then serve_get hashmap
      else if c.header.request_code == evict_code
      then serve_evict hashmap
      else if c.header.request_code == clear_code
      then serve_clear hashmap
      else (reply unsupported 0, hashmap))
