-- ===== src/Exchange/Splitting.antt =====
-- splitData (src/DataExchange.cpp): the arithmetic of its loop, and the chunks that it makes.
use native.Mathlib.Nat.{
  mod-eq_of_lt, lt-div-mul-add, div-mul-le_self, mul-le-mul_right, suc-mul, zero-mul, add_comm,
}
use peer_to_peer_network_ove.Prelude.{
  ℕ, zero, suc, ◌+◌, ◌-◌, ◌*◌, ◌/◌, ◌%◌, ◌^◌, ◌<◌, ◌≤◌, ◌≡◌, ◌∙◌, refl, ap, List, [], ◌∷◌, ◌++◌,
  length, take, drop, length-drop, take-add, drop-drop, take-min, take_all, arith,
}
use peer_to_peer_network_ove.Wire.{to_uint32}
use peer_to_peer_network_ove.Outcome.{ok}
use peer_to_peer_network_ove.Exchange.State.{DataChunk, Exchange}
use peer_to_peer_network_ove.Exchange.{size_max, chunk_count, chunk_at, split_loop, split_data}

-- Data and a chunk size for which the arithmetic of splitData does not wrap around: the chunk size
-- is positive, the size_t sum fits and there are fewer than 2^32 chunks.
pub record Splits (bytes : List ℕ) (size : ℕ) : Type 0 where
  pub positive : 0 < size
  pub fits : length bytes + size ≤ size_max
  pub few : (length bytes + size - 1) / size < 2 ^ 32

-- The data of the chunk `i`.
abbrev pub piece : List ℕ → ℕ → ℕ → List ℕ
piece bytes size i = take size (drop (i * size) bytes)

-- The pieces from `i` on, `n` of them.
abbrev pub pieces : List ℕ → ℕ → ℕ → ℕ → List ℕ
pieces bytes size zero i = []
pieces bytes size (suc n) i = piece bytes size i ++ pieces bytes size n (suc i)

module _ (bytes : List ℕ) (size : ℕ) (s : Splits bytes size) where
  abbrev count : ℕ
  count = chunk_count (length bytes) size

  count_lem : count ≡ (length bytes + size - 1) / size
  count_lem =
      let wrapped : (length bytes + size + (size_max - 1)) % size_max ≡ length bytes + size - 1 =
        omega (arith, s.positive, s.fits) in
      ap (λ k. to_uint32 (k / size)) wrapped ∙ mod-eq_of_lt s.few

  -- The chunks reach the end of the data, and each starts before it.
  count-covers : length bytes ≤ count * size
  count-covers =
      rw (count_lem)
        (omega (arith, s.positive, lt-div-mul-add {a = length bytes + size - 1} s.positive))

  offset-below : (i : ℕ) → i < count → i * size < length bytes
  offset-below i h =
      let top = div-mul-le_self (length bytes + size - 1) size in
      let below : suc i ≤ (length bytes + size - 1) / size = omega (arith, count_lem, h) in
      omega (arith, s.positive, top, mul-le-mul_right size below, suc-mul i size)

  pub chunk_at-piece :
      (id i : ℕ) → i < count → (chunk_at bytes id size count i).bytes ≡ piece bytes size i
  chunk_at-piece id i h =
      let below = offset-below i h in
      ground (
        arith,
        s.fits,
        mod-eq_of_lt {n = i * size} {m = size_max} (omega (arith, s.fits)),
        take-min size (drop (i * size) bytes),
        length-drop (i * size) bytes,
      )

  -- The pieces from the first on are the data.
  pieces-take : (n i : ℕ) → pieces bytes size n i ≡ take (n * size) (drop (i * size) bytes)
  pieces-take zero i = rw (zero-mul size)
  pieces-take (suc n) i = rw (
    suc-mul n size,
    add_comm (n * size) size,
    take-add size (n * size) (drop (i * size) bytes),
    drop-drop (i * size) size bytes,
    ← suc-mul i size,
    pieces-take n (suc i),
  )

  pub pieces-all : pieces bytes size count 0 ≡ bytes
  pieces-all = pieces-take count 0 ∙ rw (zero-mul size) (take_all (count * size) bytes count-covers)

-- The data of chunks in their order.
abbrev pub joined : List DataChunk → List ℕ
joined [] = []
joined (c ∷ chunks) = c.bytes ++ joined chunks

module _ (bytes : List ℕ) (size id : ℕ) (s : Splits bytes size) where
  split_loop-pieces :
      (n i : ℕ)
      → i + n ≤ chunk_count (length bytes) size
      → (joined (split_loop bytes id size (chunk_count (length bytes) size) n i)
          ≡ pieces bytes size n i)
        × (length (split_loop bytes id size (chunk_count (length bytes) size) n i) ≡ n)
  unfolding split_loop
  split_loop-pieces zero i h = (refl, refl)
  split_loop-pieces (suc n) i h =
      let (data_eq, length_eq) = split_loop-pieces n (suc i) (omega arith) in
      let here = chunk_at-piece bytes size s id i (omega arith) in
      (λ j. here j ++ data_eq j, omega (arith, length_eq))

-- splitData cuts the data, if its arithmetic does not wrap around, into as many chunks as the size
-- asks for, and the data of the chunks in their order are the data.
pub split_data-joined :
    (bytes : List ℕ) (id : ℕ) (e : Exchange)
    → Splits bytes e.chunk_size
    → (chunks : List DataChunk) × (split_data bytes id e ≡ ok (chunks, e))
      × (joined chunks ≡ bytes)
      × (length chunks ≡ (length bytes + e.chunk_size - 1) / e.chunk_size)
unfolding split_data
split_data-joined bytes id e s =
    let n = chunk_count (length bytes) e.chunk_size in
    let (data_eq, length_eq) = split_loop-pieces bytes e.chunk_size id s n 0 (omega arith) in
    (
      split_loop bytes id e.chunk_size n n 0,
      ground (arith, s.positive),
      data_eq ∙ pieces-all bytes e.chunk_size s,
      length_eq ∙ count_lem bytes e.chunk_size s,
    )
