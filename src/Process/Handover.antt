-- ===== src/Process/Handover.antt =====
-- The two ways of an onion of `form_onion`, in the form in which it is handed over.
use eror.Prelude.{
  ℕ, zero, suc, ◌<◌, ◌^◌, ◌≡◌, refl, sym, ap, ◌∙◌, subst, true, List, [], ◌∷◌, map, length, arith,
}
use eror.Prelude.Outcome.{ok}
use eror.Bytes.{Byte}
use eror.Serde.{Bincode, IsBincode}
use eror.Primitives.{Primitives, IsPrimitives, KeyRole}
use eror.Pki.{Address}
use eror.Onion.{Meta, Header, raw, Onion, into_bytes, header_eq, headers_eq, packed_header}
use eror.Onion.Serialize.{unparsed, header_eq_raw}
use eror.Format.{OnionFormat}
use eror.Layer.{unwrap}
use eror.Layer.Headers.{header_bytes}
use eror.Onionize.Chain.{travel}
use eror.Onionize.Ciphers.{stop_meta}
use eror.Onionize.Fresh.{IsFresh, unwrap_fresh}
use eror.Onionize.Backward.{answered}
use eror.Onionize.Journey.{stops}
use eror.Process.{proc_onion}
use eror.Process.Way.{Way, travel-Way, Way-first, stop_meta_hop}
use eror.Process.Route.{hop_at, owner}
use eror.Process.Reply.{receiver_key}
use eror.Process.Return.{ComesBack, expects, judge}

module _ (b : Bincode) (p : Primitives) (hb : IsBincode b) (hp : IsPrimitives p) where
  headers_eq_unparsed :
      (hs gs : List (Header p))
      → headers_eq b p hs gs ≡ headers_eq b p (map raw (header_bytes b p hs)) gs
  unfolding headers_eq header_eq into_bytes
  headers_eq_unparsed [] gs = refl
  headers_eq_unparsed (h ∷ hs) [] = refl
  headers_eq_unparsed (h ∷ hs) (g ∷ gs) = rw (headers_eq_unparsed hs gs) refl

  -- The onion for the first hop on its way, in the form in which it is handed over.
  pub forth_lem :
      (f : OnionFormat p) (key : ℕ → p.SymmetricKey) (addr : ℕ → Address) (sk : ℕ → p.PrivateKey)
      (pk : ℕ → p.PublicKey) (n : ℕ) (meta : Meta) (first last : Onion p)
      → p.symmetric_key_length < 2 ^ 32
      → IsFresh b p hb hp f first.header
      → travel b p f sk n (unparsed b p hb hp first)
        ≡ ok (stops b p hb hp f key addr sk pk n meta, unparsed b p hb hp last)
      → (arrived : Onion p) × Way b p f sk addr n first arrived
        × ((k : p.PrivateKey) → unwrap b p f k arrived ≡ unwrap b p f k (unparsed b p hb hp last))
        × (headers_eq b p arrived.header last.header ≡ true)
        × (arrived.forward ≡ last.forward)
        × (arrived.backward ≡ last.backward)
  unfolding Way
  forth_lem f key addr sk pk zero meta first last short fresh e =
      let start =
        travel-Way b p f sk addr _ zero (unparsed b p hb hp first) (λ j h. absurd (omega arith))
          e in
      (
        first,
        refl,
        λ k. unwrap_fresh b p hb hp f k first short fresh ∙ ap (unwrap b p f k) start,
        headers_eq_unparsed first.header last.header
            ∙ ap (λ (o : Onion p). headers_eq b p o.header last.header) start
            ∙ header_eq_raw b p hb hp last.header,
        ap (λ (o : Onion p). o.forward) start,
        ap (λ (o : Onion p). o.backward) start,
      )
  forth_lem f key addr sk pk (suc n) meta first last short fresh e = (
    unparsed b p hb hp last,
    Way-first b p f sk addr n first (unparsed b p hb hp first) (unparsed b p hb hp last)
        (λ k. unwrap_fresh b p hb hp f k first short fresh)
        (travel-Way b p f sk addr (λ i. (key i, stop_meta addr (suc n) meta i)) (suc n)
          (unparsed b p hb hp first) (λ j h. stop_meta_hop addr (suc n) meta j h) e),
    λ k. refl,
    header_eq_raw b p hb hp last.header,
    refl,
    refl,
  )

  -- The reply is what the sender prepared.
  answer_lem :
      (first arrived : Onion p) (key : p.SymmetricKey) (bwd : List Byte × p.Tag) (size : ℕ)
      → first.forward ≡ p.prng_fill (p.derive_key KeyRole.prng key) size
      → length arrived.forward ≡ size
      → record {
        header = map raw (header_bytes b p first.header);
        forward = p.prng_fill (p.derive_key KeyRole.prng key) (length arrived.forward);
        backward = bwd;
      }
        ≡ unparsed b p hb hp (answered b p hb hp first bwd)
  answer_lem first arrived key bwd size e l =
      ap
        (λ (fwd : List Byte). record {
          header = map raw (header_bytes b p first.header);
          forward = fwd;
          backward = bwd;
        })
        (ap (p.prng_fill (p.derive_key KeyRole.prng key)) l ∙ sym e)

  -- The onion with any backward part in it comes from the receiver to the sender, who judges it.
  pub back_lem :
      (f : OnionFormat p) (sk : Address → p.PrivateKey) (hops : List Address) (m : ℕ)
      (key : ℕ → p.SymmetricKey) (pk : ℕ → p.PublicKey) (meta : Meta) (n_forward : ℕ)
      (master : p.SymmetricKey) (tag : p.Tag) (bwd : List Byte × p.Tag)
      (first last arrived : Onion p) (size : ℕ)
      → first.forward
        ≡ p.prng_fill (p.derive_key KeyRole.prng (receiver_key b p hb hp master n_forward)) size
      → length arrived.forward ≡ size
      → ComesBack b p hb hp f key
          (hop_at hops)
          (owner sk hops)
          pk
          m
          n_forward
          master
          meta
          tag
          bwd
          first
          last
      → (returned : Onion p) × Way b p f
          (owner sk hops)
          (hop_at hops)
          m
          (record {
            header = map raw (header_bytes b p first.header);
            forward =
                p.prng_fill
                  (p.derive_key KeyRole.prng (receiver_key b p hb hp master n_forward))
                  (length arrived.forward);
            backward = bwd;
          })
          returned
        × (packed_header b p returned.header ≡ packed_header b p last.header)
        × (proc_onion b p f (owner sk hops m) (expects (packed_header b p last.header) tag) returned
            ≡ judge b p hb hp (receiver_key b p hb hp master n_forward) tag bwd)
  back_lem f sk hops m key pk meta n_forward master tag bwd first last arrived size carries l
        (returned, trip, found, judged) =
      (
        returned,
        subst (λ (o : Onion p). Way b p f (owner sk hops) (hop_at hops) m o returned)
            (sym (
              answer_lem first arrived (receiver_key b p hb hp master n_forward) bwd size carries
                l))
            (travel-Way b p f (owner sk hops) (hop_at hops)
              (λ i. (key i, stop_meta (hop_at hops) m meta i)) m _
              (λ j h. stop_meta_hop (hop_at hops) m meta j h) trip),
        found,
        judged,
      )
