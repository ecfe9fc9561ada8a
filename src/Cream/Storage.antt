-- ===== src/Cream/Storage.antt =====
-- What the worker of hw5/src/cream.c does to a well-formed map, and what it answers from it.
use native.Mathlib.Decide.{ℕ_discrete}
use cse320_projects.Common.{
  ap, ◌≡◌, ◌≢◌, refl, ◌∙◌, ◌≤◌, ◌<◌, ◌⊎◌, inl, inr, true, false, some, none, ◌∷◌, arith,
  Option-cases, ◌%◌, ◌^◌, ◌==◌,
}
use cse320_projects.Hashmap.{Memory, key_compare, Hashmap, key_missing, val_missing}
use cse320_projects.Hashmap.Operations.{put}
use cse320_projects.Hashmap.Keys.{key_compare_refl}
use cse320_projects.Hashmap.Slots.{live-le-length}
use cse320_projects.Hashmap.Invariant.{IsValid, view}
use cse320_projects.Hashmap.Put.{put-Stored}
use cse320_projects.Hashmap.Evict.{put-Evicted}
use cse320_projects.Hashmap.Get.{answer, get-view}
use cse320_projects.Hashmap.Clear.{clear_map-empties}
use cse320_projects.Cream.{
  Served, Connection, respond, ok, not_found, serve, serve_put, serve_get, serve_clear,
  keysize_valid, valuesize_valid, request_key, request_val, reply, ended, after_read, after_calloc,
  send_value, done,
}
use cse320_projects.Cream.Request.{put_code, get_code, evict_code, clear_code}

-- `Calloc` gave the buffers of a request, its sizes are in range, and it is read without a failure
-- and without EINTR and EPIPE.
pub record Acceptable (c : Connection) : Type 0 where
  pub header : c.header_read ≡ done
  pub key_low : 1 ≤ c.header.key_size
  pub key_high : c.header.key_size ≤ 2048
  pub key_base : c.key_base ≢ 0
  pub key_read : c.key_read ≡ done

pub record AcceptableValue (c : Connection) : Type 0 where
  pub val_low : 1 ≤ c.header.value_size
  pub val_high : c.header.value_size ≤ 4096
  pub val_base : c.val_base ≢ 0
  pub val_read : c.val_read ≡ done

module _ (mem : Memory) (c : Connection) {m : Hashmap} (valid : IsValid mem m)
    (a : Acceptable c) where
  key_given : key_missing (request_key c) ≡ false
  unfolding key_missing
  key_given = ground arith

  key_sized : keysize_valid c.header.key_size ≡ true
  unfolding keysize_valid
  key_sized = ground arith

  module _ (v : AcceptableValue c) where
    val_given : val_missing (request_val c) ≡ false
    unfolding val_missing
    val_given = ground arith

    val_sized : valuesize_valid c.header.value_size ≡ true
    unfolding valuesize_valid
    val_sized = ground arith

    same : key_compare mem (request_key c) (request_key c) ≡ true
    same = key_compare_refl mem (request_key c) a.key_base

    room : (m.size < m.capacity) ⊎ (m.size ≡ m.capacity)
    room = omega (arith, valid.counted, live-le-length m.nodes, valid.table.full_length)

    stored :
        (view mem m (request_key c) ≢ none) ⊎ (m.size < m.capacity)
        → (m' : Hashmap) × (put mem (request_key c) (some m) (request_val c) true
            ≡ record { self = some m'; errno = none; result = true })
          × IsValid mem m'
          × (view mem m' (request_key c) ≡ some (request_val c))
    stored why =
        let (m', run, t) =
          put-Stored mem valid (request_key c) key_given (request_val c) val_given true why in
        (m', run, t.keeps, t.reads (request_key c) ∙ rw same refl)

    put-succeeds :
        (m' : Hashmap) × (put mem (request_key c) (some m) (request_val c) true
          ≡ record { self = some m'; errno = none; result = true })
        × IsValid mem m'
        × (view mem m' (request_key c) ≡ some (request_val c))
    put-succeeds = elim room [
      | inl lt ↦ stored (inr lt)
      | inr full ↦ elim (Option-cases (view mem m (request_key c))) [
        | inr (old, shown) ↦ stored (inl (λ e. cc (shown, e)))
        | inl gone ↦
            let (m', run, t) =
              put-Evicted mem valid (request_key c) key_given (request_val c) val_given gone full in
            (m', run, t.keeps, t.reads (request_key c) ∙ rw same refl)
      ]
    ]

    -- A PUT with sizes in range, on a well-formed map, whose header, key and value are read without
    -- a failure and without EINTR or EPIPE, into buffers that `Calloc` gave, is answered OK with
    -- the size of the value, and the round ends with a `Close`, or with `exit` if writing the
    -- answer fails; afterwards the map is well formed and holds the value under the key, full or
    -- not.
    pub serve-put :
        c.header.request_code ≡ put_code
        → (m' : Hashmap) × (serve mem c (some m)
            ≡ (respond ok c.header.value_size ∷ ended c.response_written, some m'))
          × IsValid mem m'
          × (view mem m' (request_key c) ≡ some (request_val c))
    unfolding serve serve_put after_read after_calloc reply
    serve-put code =
        let (m', run, keeps, holds) = put-succeeds in
        let key_buffer : (c.key_base == 0) ≡ false = ground (arith, a.key_base) in
        let val_buffer : (c.val_base == 0) ≡ false = ground (arith, v.val_base) in
        (
          m',
          rw
              (
                a.header, code, key_sized, val_sized, key_buffer, val_buffer, a.key_read,
                v.val_read, run,
              )
              refl,
          keeps,
          holds,
        )

  -- A GET with a size in range, on a well-formed map, whose header and key are read without a
  -- failure and without EINTR or EPIPE, into a buffer that `Calloc` gave, leaves the map as it was
  -- and is answered NOT_FOUND if the key is not held; if it is held with a value that is not NULL,
  -- it is answered OK with the length of the value modulo 2 ^ 32, and then the value is sent,
  -- unless writing the header ended in EINTR or EPIPE, which closes the connection, or failed,
  -- which ends the process.
  pub serve-get :
      c.header.request_code ≡ get_code
      → (answer (view mem m (request_key c))).val_base ≢ 0 ⊎ (view mem m (request_key c) ≡ none)
      → serve mem c (some m) ≡ (
        elim (view mem m (request_key c)) [
          | none ↦ respond not_found 0 ∷ ended c.response_written
          | some val ↦
              respond ok (val.val_len % 2 ^ 32) ∷ send_value val c.response_written c.value_written
        ],
        some m,
      )
  unfolding serve serve_get after_read after_calloc reply
  serve-get code real =
      let buffer : (c.key_base == 0) ≡ false = ground (arith, a.key_base) in
      rw
        (
          a.header,
          code,
          key_sized,
          buffer,
          a.key_read,
          get-view mem valid (request_key c) key_given,
        )
        (ground (arith, real))

  -- A round that is no EVICT leaves a well-formed map well formed, for a connection whose sizes are
  -- in range and whose reads succeed.
  pub serve-IsValid :
      c.header.request_code ≢ evict_code
      → (v : AcceptableValue c)
      → (m' : Hashmap) × ((serve mem c (some m)).1 ≡ some m') × IsValid mem m'
  unfolding serve serve_put serve_get serve_clear after_read after_calloc reply
  serve-IsValid other v = elim (ℕ_discrete c.header.request_code put_code) [
    | yes is_put ↦
        let (m', run, keeps, holds) = serve-put v is_put in
        (m', ap (λ (s : Served). s.1) run, keeps)
    | no not_put ↦ elim (ℕ_discrete c.header.request_code get_code) [
      | yes is_get ↦
          (m, ground (arith, a.header, get-view mem valid (request_key c) key_given), valid)
      | no not_get ↦ elim (ℕ_discrete c.header.request_code clear_code) [
        | yes is_clear ↦
            let (m', run, keeps, empty_size, gone, handed) = clear_map-empties mem valid in
            (m', ground (arith, a.header, run), keeps)
        | no not_clear ↦ (m, ground (arith, a.header), valid)
      ]
    ]
  ]
