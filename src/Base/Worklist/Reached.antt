-- ===== src/Base/Worklist/Reached.antt =====
-- The search of a worklist ends, and what it has seen is exactly what the seeds reach.
use mathlib.Core.Path.{◌≡◌, refl, sym, subst}
use mathlib.Core.Logic.{◌⊎◌, inl, inr, ◌↔◌}
use mathlib.Core.Bool.{true, ◌||◌}
use mathlib.Core.Option
use mathlib.Core.Option.{Option, none, some}
use mathlib.Core.List.{List, [], ◌∷◌}
use Prim.Native.Nat.{ℕ, zero, suc, ◌+◌, ◌≤◌}
use native.Mathlib.Omega.{arith}
use clunk.Base.Tests.{Bool-cases}
use clunk.Base.Lists.{length}
use clunk.Base.Maps.{Key}
use clunk.Base.Sets.{
  contains, missing, missing-cons-lt, missing-le-length, Unrepeated, empty, one_more,
}
use clunk.Base.Worklist.{Frontier, Search, offer, offers, explore, closure, contains-offer}

module _ {ℓ} {A : Type ℓ} ⦃e : Key A⦄ where
  -- A path from a seed along the edges.
  pub data Reach (next : A → List A) (seeds : List A) : A → Type ℓ where
    seed : {v : A} → contains v seeds ≡ true → Reach next seeds v
    step : {u v : A} → Reach next seeds u → contains v (next u) ≡ true → Reach next seeds v

  contains_head : (v : A) (vs : List A) → contains v (v ∷ vs) ≡ true
  unfolding contains
  contains_head v vs = ground (arith, e.same_iff v v)

  contains_tail : (x v : A) (vs : List A) → contains x vs ≡ true → contains x (v ∷ vs) ≡ true
  unfolding contains
  contains_tail x v vs h = ground arith

  contains_cons :
      (x v : A) (vs : List A) → contains x (v ∷ vs) ≡ true → (v ≡ x) ⊎ (contains x vs ≡ true)
  unfolding contains
  contains_cons x v vs h = ground (arith, e.same_iff v x)

  module _ (f : Frontier A) where
    contains-offers :
        (vs : List A) (x : A) (s : Search A)
        → (contains x (offers f vs s).seen ≡ (contains x s.seen || contains x vs))
          × (contains x s.pending ≡ true → contains x (offers f vs s).pending ≡ true)
          × (contains x (offers f vs s).pending ≡ true
              → (contains x s.pending ≡ true) ⊎ (contains x vs ≡ true))
          × (contains x (offers f vs s).seen ≡ true
              → (contains x s.seen ≡ true) ⊎ (contains x (offers f vs s).pending ≡ true))
    unfolding offers contains
    contains-offers [] x s = ground arith
    contains-offers (v ∷ vs) x s =
        ground (arith, contains-offer f v x s, contains-offers vs x (offer f v s), e.same_iff v x)

    -- What is left to do: the nodes not seen and those pending.
    abbrev work : List A → Search A → ℕ
    work universe s = missing universe s.seen + length s.pending

    work-offer :
        (universe : List A) (v : A) (s : Search A)
        → contains v universe ≡ true
        → work universe (offer f v s) ≤ work universe s
    unfolding offer
    work-offer universe v s h = elim (Bool-cases (contains v s.seen)) [
      | inl old ↦ rw old (omega arith)
      | inr new ↦
          rw new (omega (arith, missing-cons-lt v universe s.seen h new, f.length-push v s.pending))
    ]

    work-offers :
        (universe vs : List A) (s : Search A)
        → ((v : A) → contains v vs ≡ true → contains v universe ≡ true)
        → work universe (offers f vs s) ≤ work universe s
    unfolding offers
    work-offers universe [] s h = omega arith
    work-offers universe (v ∷ vs) s h = omega (
      arith,
      work-offer universe v s (h v (contains_head v vs)),
      work-offers universe vs (offer f v s) (λ x m. h x (contains_tail x v vs m)),
    )

    module _ (next : A → List A) (seeds : List A) where
      record Inv (s : Search A) : Type ℓ where
        sound : (v : A) → contains v s.seen ≡ true → Reach next seeds v
        queued : (v : A) → contains v s.pending ≡ true → contains v s.seen ≡ true
        seeded : (v : A) → contains v seeds ≡ true → contains v s.seen ≡ true
        closed :
            (u v : A)
            → contains u s.seen ≡ true
            → contains v (next u) ≡ true
            → (contains u s.pending ≡ true) ⊎ (contains v s.seen ≡ true)

      abbrev expanded : List A → A → List A → Search A
      expanded seen u rest = offers f (next u) (record { seen = seen; pending = rest })

      expand-Inv :
          (seen : List A) (u : A) (rest : List A)
          → Inv (record { seen = seen; pending = u ∷ rest })
          → Inv (expanded seen u rest)
      expand-Inv seen u rest h =
          let before : Search A = record { seen = seen; pending = rest } in
          let facts = λ (x : A). contains-offers (next u) x before in
          let to_u = h.sound u (h.queued u (contains_head u rest)) in
          record {
            sound = λ v m. elim (Bool-cases (contains v seen)) [
              | inl old ↦ h.sound v old
              | inr new ↦ step to_u (ground (arith, facts v))
            ];
            queued = λ v m. ground (
              arith,
              facts v,
              λ (p : contains v rest ≡ true). h.queued v (contains_tail v u rest p),
            );
            seeded = λ v m. ground (arith, facts v, h.seeded v m);
            closed = λ x v m edge. elim (Bool-cases (contains x seen)) [
              | inr new ↦ inl (ground (arith, facts x))
              | inl old ↦ elim (h.closed x v old edge) [
                | inr there ↦ inr (ground (arith, facts v))
                | inl waiting ↦ elim (contains_cons x u rest waiting) [
                  | inl same ↦ inr (
                      ground
                        (arith, facts v, subst (λ t. contains v (next t) ≡ true) (sym same) edge))
                  | inr later ↦ inl (ground (arith, facts x))
                ]
              ]
            ];
          }

      -- When the loop returns, its invariant holds with nothing pending.
      explore-Inv :
          (fuel : ℕ) (seen pending r : List A)
          → Inv (record { seen = seen; pending = pending })
          → explore f next fuel seen pending ≡ some r
          → Inv (record { seen = r; pending = [] })
      unfolding explore
      explore-Inv fuel seen [] r h q =
          subst (λ t. Inv (record { seen = t; pending = [] })) (Option.some_inj.0 q) h
      explore-Inv zero seen (u ∷ rest) r h q = absurd (cc)
      explore-Inv (suc fuel) seen (u ∷ rest) r h q =
          explore-Inv fuel (expanded seen u rest).seen (expanded seen u rest).pending r
            (expand-Inv seen u rest h) q

      start : Search A
      start = offers f seeds (record { seen = []; pending = [] })

      start-Inv : Inv start
      unfolding start contains
      start-Inv =
          let facts = λ (x : A). contains-offers seeds x (record { seen = []; pending = [] }) in
          record {
            sound = λ v m. seed (ground (arith, facts v));
            queued = λ v m. ground (arith, facts v);
            seeded = λ v m. ground (arith, facts v);
            closed = λ u v m edge. inl (ground (arith, facts u));
          }

      reached :
          (r : List A) (v : A)
          → Inv (record { seen = r; pending = [] })
          → Reach next seeds v
          → contains v r ≡ true
      unfolding contains
      reached r v h (seed m) = h.seeded v m
      reached r v h (step {u} p edge) = elim (h.closed u v (reached r u h p) edge) [
        | inl waiting ↦ absurd (cc)
        | inr there ↦ there
      ]

      -- What the search has seen when it returns is what the seeds reach.
      pub closure_iff :
          (fuel : ℕ) (r : List A) (v : A)
          → closure f next fuel seeds ≡ some r
          → (contains v r ≡ true) ↔ Reach next seeds v
      unfolding closure start
      closure_iff fuel r v q =
          let done = explore-Inv fuel start.seen start.pending r start-Inv q in
          (done.sound v, reached r v done)

      explore_ends :
          (universe : List A) (fuel : ℕ) (seen pending : List A)
          → ((u v : A) → contains v (next u) ≡ true → contains v universe ≡ true)
          → work universe (record { seen = seen; pending = pending }) ≤ fuel
          → (r : List A) × (explore f next fuel seen pending ≡ some r)
      unfolding explore
      explore_ends universe fuel seen [] h le = (seen, refl)
      explore_ends universe zero seen (u ∷ rest) h le = absurd (omega arith)
      explore_ends universe (suc fuel) seen (u ∷ rest) h le =
          explore_ends universe fuel (expanded seen u rest).seen (expanded seen u rest).pending h (
            omega
              (arith, work-offers universe (next u) (record { seen = seen; pending = rest }) (h u)))

      -- The loop ends within as many rounds as there are nodes, where every seed and every target of an
      -- edge is one of them.
      pub closure_ends :
          (universe : List A) (fuel : ℕ)
          → ((v : A) → contains v seeds ≡ true → contains v universe ≡ true)
          → ((u v : A) → contains v (next u) ≡ true → contains v universe ≡ true)
          → length universe ≤ fuel
          → (r : List A) × (closure f next fuel seeds ≡ some r)
      unfolding closure start
      closure_ends universe fuel hs hn le = explore_ends universe fuel start.seen start.pending hn (
          omega (
            arith,
            work-offers universe seeds (record { seen = []; pending = [] }) hs,
            missing-le-length universe [],
          ))

      offer-Unrepeated : (v : A) (s : Search A) → Unrepeated s.seen → Unrepeated (offer f v s).seen
      unfolding offer
      offer-Unrepeated v s u = elim (Bool-cases (contains v s.seen)) [
        | inl old ↦ rw old u
        | inr new ↦ rw new (one_more new u)
      ]

      offers-Unrepeated :
          (vs : List A) (s : Search A) → Unrepeated s.seen → Unrepeated (offers f vs s).seen
      unfolding offers
      offers-Unrepeated [] s u = u
      offers-Unrepeated (v ∷ vs) s u = offers-Unrepeated vs (offer f v s) (offer-Unrepeated v s u)

      explore-Unrepeated :
          (fuel : ℕ) (seen pending r : List A)
          → Unrepeated seen
          → explore f next fuel seen pending ≡ some r
          → Unrepeated r
      unfolding explore
      explore-Unrepeated fuel seen [] r u q = subst Unrepeated (Option.some_inj.0 q) u
      explore-Unrepeated zero seen (x ∷ rest) r u q = absurd (cc)
      explore-Unrepeated (suc fuel) seen (x ∷ rest) r u q =
          explore-Unrepeated fuel (expanded seen x rest).seen (expanded seen x rest).pending r
            (offers-Unrepeated (next x) (record { seen = seen; pending = rest }) u) q

      -- Nothing is seen twice.
      pub closure-Unrepeated :
          (fuel : ℕ) (r : List A) → closure f next fuel seeds ≡ some r → Unrepeated r
      unfolding closure start
      closure-Unrepeated fuel r q =
          explore-Unrepeated fuel start.seen start.pending r
            (offers-Unrepeated seeds (record { seen = []; pending = [] }) empty) q
