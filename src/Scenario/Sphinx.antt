-- ===== src/Scenario/Sphinx.antt =====
-- examples/onion_sizes.rs: `generate_sphinx_onion`, over the Sphinx crate, which is a parameter.
use eror.Prelude.{
  ℕ, zero, suc, ◌+◌, ◌*◌, ◌-◌, ◌<◌, ◌≤◌, ◌≡◌, refl, ap, ◌∙◌, true, false, List, [], ◌∷◌, Option,
  none, some, length, replicate, length-replicate, take, drop, leb, if◌then◌else◌, arith,
}
use eror.Prelude.Outcome.{ok}
use eror.Prelude.Rand.{Rand, lift, draw, pure, run_bind, run_lift, ◌>>=◌}
use eror.Bytes.{Byte, byte, Array, zeros}
use eror.Primitives.Ec.{Crates}
use eror.Scenario.{slice, unwrap_rand, unwrap_result}
use eror.Scenario.Members.{slice-ok, length-slice}

-- What the example calls of the crate, over the state of a generator. `build_packet` is that of a
-- builder with the given payload size, and draws the secret of the packet.
pub record Sphinx (Rng : Type 0) : Type 1 where
  pub PrivateKey : Type 0
  pub PublicKey : Type 0
  pub keygen : Rng → (PrivateKey × PublicKey) × Rng
  pub Delay : Type 0
  pub new_from_nanos : ℕ → Delay
  pub Destination : Type 0
  pub new_destination : Array 32 → Array 16 → Destination
  pub SphinxPacket : Type 0
  pub build_packet :
      (payload_size : ℕ)
      → List Byte
      → List (Array 32 × PublicKey)
      → Destination
      → List Delay
      → Rand Rng SphinxPacket
  pub to_bytes : SphinxPacket → List Byte
  pub header_size : ℕ
  pub payload_overhead_size : ℕ
  pub max_path_length : ℕ

-- What it documents: a message that leaves room for the overhead, in a payload of at least a block of
-- its cipher, for a path that is not too long, makes a packet, whose size is that of a header and the
-- payload.
pub record IsSphinx {Rng : Type 0} (s : Sphinx Rng) : Type 0 where
  pub header_size-block : 32 ≤ s.header_size
  pub build_packet-size :
      (payload_size : ℕ) (message : List Byte) (route : List (Array 32 × s.PublicKey))
      (destination : s.Destination) (delays : List s.Delay) (r : Rng)
      → length message + s.payload_overhead_size ≤ payload_size
      → 32 ≤ payload_size
      → 0 < length route
      → length route ≤ s.max_path_length
      → length delays ≡ length route
      → (packet : s.SphinxPacket) × (r' : Rng) × (s.build_packet payload_size message route
            destination delays r
          ≡ ok (packet, r'))
        × (length (s.to_bytes packet) ≡ s.header_size + payload_size)

module _ (c : Crates) (s : Sphinx c.Rng) where
  open c use {Rng, gen_array}

  -- `(0..n).map(|_| ..).collect()`: an address and a key for each node.
  unfoldable pub draw_route : ℕ → Rng → List (Array 32 × s.PublicKey) × Rng
  draw_route zero r = ([], r)
  draw_route (suc n) r =
      let (address, r1) = gen_array 32 r in
      let ((_, pub_key), r2) = s.keygen r1 in
      let (route, r3) = draw_route n r2 in ((address, pub_key) ∷ route, r3)

  -- A reply block is taken to be as long as a header.
  unfoldable pub sphinx_surb_size : ℕ → ℕ
  sphinx_surb_size path_len = s.header_size

  unfoldable pub generate_sphinx_onion : ℕ → ℕ → Rand Rng s.SphinxPacket
  unfolding draw_route sphinx_surb_size slice zeros
  generate_sphinx_onion path_length payload_size = do
    route ← draw (draw_route (2 * path_length))
    let delays = replicate (2 * path_length) (s.new_from_nanos 0)
    address ← draw (gen_array 32)
    identifier ← draw (gen_array 16)
    let destination = s.new_destination address identifier
    let surb_size = sphinx_surb_size path_length
    hops ← lift (slice route 0 path_length)
    hop_delays ← lift (slice delays 0 path_length)
    unwrap_rand (
        s.build_packet (payload_size + surb_size + s.payload_overhead_size)
          (zeros (payload_size + surb_size)) hops destination hop_delays)

  -- The column of the table: only for a path that the crate allows.
  unfoldable pub sphinx_column : ℕ → ℕ → Rand Rng (Option ℕ)
  unfolding generate_sphinx_onion
  sphinx_column path_length payload_size =
      let built = generate_sphinx_onion path_length payload_size >>= λ packet.
      pure (some (length (s.to_bytes packet))) in
      if leb path_length s.max_path_length then built else pure none

  length-draw_route : (n : ℕ) (r : Rng) → length (draw_route n r).0 ≡ n
  unfolding draw_route
  length-draw_route zero r = refl
  length-draw_route (suc n) r =
      let (address, r1) = gen_array 32 r in
      let ((_, pub_key), r2) = s.keygen r1 in omega (arith, length-draw_route n r2)

  -- With the documented behaviour of the crate, `generate_sphinx_onion` makes a packet in every state
  -- of the generator for a path of at least one node that is not too long.
  generate_sphinx_onion-ok :
      IsSphinx s
      → (path_length payload_size : ℕ) (r : Rng) → 0 < path_length
      → path_length ≤ s.max_path_length
      → (packet : s.SphinxPacket) × (r' : Rng) × (generate_sphinx_onion path_length payload_size r
          ≡ ok (packet, r'))
        × (length (s.to_bytes packet)
            ≡ s.header_size + (payload_size + s.header_size + s.payload_overhead_size))
  unfolding generate_sphinx_onion sphinx_surb_size zeros
  generate_sphinx_onion-ok hs path_length payload_size r some_hop allowed =
      let (route, r1) = draw_route (2 * path_length) r in
      let delays = replicate (2 * path_length) (s.new_from_nanos 0) in
      let (address, r2) = gen_array 32 r1 in
      let (identifier, r3) = gen_array 16 r2 in
      let long : path_length ≤ length route =
        omega (arith, length-draw_route (2 * path_length) r) in
      let long' : path_length ≤ length delays =
        omega (arith, length-replicate (2 * path_length) (s.new_from_nanos 0)) in
      let hops = length-slice route 0 path_length (omega arith) long in
      let hop_delays = length-slice delays 0 path_length (omega arith) long' in
      let (packet, r', built, size) =
        hs.build_packet-size (payload_size + s.header_size + s.payload_overhead_size)
          (zeros (payload_size + s.header_size)) (take (path_length - 0) (drop 0 route))
          (s.new_destination address identifier) (take (path_length - 0) (drop 0 delays)) r3
          (omega (arith, length-replicate (payload_size + s.header_size) (byte 0)))
          (omega (arith, hs.header_size-block)) (omega (arith, hops)) (omega (arith, hops))
          (hop_delays ∙ omega (arith, hops)) in
      (
        packet,
        r',
        run_lift (slice route 0 path_length) _ r3 (slice-ok route 0 path_length (omega arith) long)
            ∙ run_lift (slice delays 0 path_length) _ r3
                (slice-ok delays 0 path_length (omega arith) long')
            ∙ ap unwrap_result built,
        size,
      )

  -- With the documented behaviour of the Sphinx crate, the last column of the table shows for a path
  -- of at least one node, in every state of the generator: two headers, the payload and its overhead,
  -- if the crate allows the path, and nothing otherwise.
  pub sphinx_column_lem :
      IsSphinx s
      → (path_length payload_size : ℕ) (r : Rng) → 0 < path_length
      → (path_length ≤ s.max_path_length
          → (r' : Rng) × (sphinx_column path_length payload_size r
              ≡ ok (some (2 * s.header_size + payload_size + s.payload_overhead_size), r')))
        × (s.max_path_length < path_length
            → sphinx_column path_length payload_size r ≡ ok (none, r))
  unfolding sphinx_column
  sphinx_column_lem hs path_length payload_size r some_hop = (
    λ allowed.
        let (packet, r', run, size) =
          generate_sphinx_onion-ok hs path_length payload_size r some_hop allowed in
        let total : length (s.to_bytes packet)
            ≡ 2 * s.header_size + payload_size + s.payload_overhead_size =
          omega (arith, size) in
        (
          r',
          rw (within path_length s.max_path_length allowed) (
              run_bind (generate_sphinx_onion path_length payload_size) _ r run
              ∙ ap (λ (n : ℕ). ok (some n, r')) total),
        ),
    λ too_long. rw (beyond path_length s.max_path_length too_long) refl,
  )
    where
      within : (n m : ℕ) → n ≤ m → leb n m ≡ true
      within n m h = ground arith

      beyond : (n m : ℕ) → m < n → leb n m ≡ false
      beyond n m h = ground arith
