-- ===== src/Examples/Packets.antt =====
-- A stand-in for the Sphinx crate: a packet is as many zero bytes as a header and the payload have.
use eror.Prelude.{ℕ, ◌+◌, ◌*◌, ◌<◌, ◌≤◌, ◌≡◌, refl, none, some, length-replicate, arith}
use eror.Prelude.Outcome.{ok}
use eror.Bytes.{byte, zeros}
use eror.Scenario.Sphinx.{Sphinx, IsSphinx, sphinx_column, sphinx_column_lem}
use eror.Examples.Data.{c, generator}

abbrev toy_sphinx : Sphinx c.Rng
toy_sphinx = record {
  PrivateKey = Unit {0};
  PublicKey = Unit {0};
  keygen = λ r. ((tt, tt), r);
  Delay = ℕ;
  new_from_nanos = λ n. n;
  Destination = Unit {0};
  new_destination = λ address identifier. tt;
  SphinxPacket = ℕ;
  build_packet = λ payload_size message route destination delays r. ok (payload_size, r);
  to_bytes = λ n. zeros (348 + n);
  header_size = 348;
  payload_overhead_size = 17;
  max_path_length = 5;
}

toy_sphinx-IsSphinx : IsSphinx toy_sphinx
unfolding zeros
toy_sphinx-IsSphinx = record {
  header_size-block = omega arith;
  build_packet-size =
      λ payload_size message route destination delays r fits block some_hop short same.
        (payload_size, r, refl, length-replicate (348 + payload_size) (byte 0));
}

sphinx_column_lem_example :
    (3 ≤ 5
      → (r' : c.Rng) × (sphinx_column c toy_sphinx 3 128 generator
          ≡ ok (some (2 * 348 + 128 + 17), r')))
    × (5 < 3 → sphinx_column c toy_sphinx 3 128 generator ≡ ok (none, generator))
sphinx_column_lem_example =
    sphinx_column_lem c toy_sphinx toy_sphinx-IsSphinx 3 128 generator (omega arith)
