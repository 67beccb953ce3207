-- ===== src/Governance/Routes/Public.antt =====
-- Proofs about the classification of a proposal.
use phi_chain.Base.{◌≡◌, refl, ◌≢◌, ◌⊎◌, inl, inr, ◌↔◌, arith, List, [], ◌∷◌, Map, nat_eq, All}
use phi_chain.Sdk.{Text}
use phi_chain.Governance.Routes.{
  VoteRoute, vote_route_public, vote_route_technical, vote_route_unspecified, route_for,
  classify_loop, classify, IsTechnical,
}

pub VoteRoute-cases :
    (r : VoteRoute)
    → (r ≡ vote_route_public) ⊎ (r ≡ vote_route_technical) ⊎ (r ≡ vote_route_unspecified)
VoteRoute-cases vote_route_public = inl refl
VoteRoute-cases vote_route_technical = inr (inl refl)
VoteRoute-cases vote_route_unspecified = inr (inr refl)

route_for-IsTechnical :
    (url : Text) (table : Map Text VoteRoute)
    → (route_for url table ≡ vote_route_technical) ↔ IsTechnical table url
unfolding route_for
route_for-IsTechnical url table = (
  λ e. record { listed = ground (arith, e); no_mapping_update = λ same. ground (arith, e, same) },
  λ t. ground (arith, t.listed, t.no_mapping_update),
)

route_for-specified :
    (url : Text) (table : Map Text VoteRoute) → route_for url table ≢ vote_route_unspecified
unfolding route_for
route_for-specified url table e = ground arith

classify_loop-IsTechnical :
    (urls : List Text) (table : Map Text VoteRoute)
    → (classify_loop urls table ≡ vote_route_technical) ↔ All (IsTechnical table) urls
unfolding classify_loop
classify_loop-IsTechnical [] table = (λ e. tt, λ t. refl)
classify_loop-IsTechnical (url ∷ urls) table =
    let one = route_for-IsTechnical url table in
    let rest = classify_loop-IsTechnical urls table in
    (
      λ e. elim (VoteRoute-cases (route_for url table)) [
        | inl public ↦ absurd (ground (arith, e, public))
        | inr (inl technical) ↦ (one.0 technical, rest.0 (ground (arith, e, technical)))
        | inr (inr neither) ↦ absurd (route_for-specified url table neither)
      ],
      λ t. ground (arith, one.1 t.0, rest.1 t.1),
    )

classify_loop-public :
    (urls : List Text) (table : Map Text VoteRoute)
    → (classify_loop urls table ≡ vote_route_public)
      ⊎ (classify_loop urls table ≡ vote_route_technical)
unfolding classify_loop
classify_loop-public [] table = inr refl
classify_loop-public (url ∷ urls) table = elim (VoteRoute-cases (route_for url table)) [
  | inl e ↦ inl (rw (classify_loop, e) refl)
  | inr (inl e) ↦ rw (classify_loop, e) (classify_loop-public urls table)
  | inr (inr e) ↦ absurd (route_for-specified url table e)
]

-- A proposal is voted on by the validators exactly if it has a message and every message of it is
-- listed as technical and is not the one that rewrites the list; every other proposal is public.
pub classify-IsTechnical :
    (urls : List Text) (table : Map Text VoteRoute)
    → ((classify urls table ≡ vote_route_technical) ↔ ((urls ≢ []) × All (IsTechnical table) urls))
      × ((classify urls table ≢ vote_route_technical) → classify urls table ≡ vote_route_public)
unfolding classify
classify-IsTechnical [] table =
    ((λ e. absurd (ground (arith, e)), λ t. absurd (t.0 refl)), λ _. refl)
classify-IsTechnical (url ∷ urls) table =
    let all = classify_loop-IsTechnical (url ∷ urls) table in
    (
      (λ e. (λ empty. ground (arith, empty), all.0 e), λ t. all.1 t.1),
      λ other. ground (arith, classify_loop-public (url ∷ urls) table, other),
    )
