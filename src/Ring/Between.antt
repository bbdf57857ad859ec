-- ===== src/Ring/Between.antt =====
-- isBetween against distances on the ring.
use peer_store.Prelude.{ℕ, ◌<◌, ◌≡◌, true, false, ◌&&◌, ◌||◌, arith, ltb, leb, ◌==◌}
use peer_store.Ring.{is_between, clockwise, ring_size}

module _ (id from to : ℕ) (hi : id < ring_size) (hf : from < ring_size) (ht : to < ring_size) where
  -- For identifiers below 2^160: the exclusive test holds exactly of the places strictly inside the
  -- clockwise arc from `from` to `to`, and of none where the two are equal; the inclusive test holds
  -- exactly of the places of the arc with both ends, and of all where the two are equal.
  pub is_between_exact :
      (is_between id from to false
        ≡ (ltb 0 (clockwise from id) && ltb (clockwise from id) (clockwise from to)))
      × (is_between id from to true ≡ (from == to || leb (clockwise from id) (clockwise from to)))
  unfolding is_between
  is_between_exact = (ground arith, ground arith)

  pub inside_closer : is_between id from to false ≡ true → clockwise id to < clockwise from to
  unfolding is_between
  inside_closer h = ground arith

  -- What lies inside an open arc splits its length.
  pub inside_adds :
      is_between id from to false ≡ true
      → (0 < clockwise from id) × (clockwise from id < clockwise from to)
  unfolding is_between
  inside_adds h = ground arith
