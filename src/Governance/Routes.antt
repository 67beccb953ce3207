-- ===== src/Governance/Routes.antt =====
-- x/governance/types/params.go: which of the two routes a proposal is voted on.
pub mod Public
use phi_chain.Base.{
  ℕ, ◌≡◌, ◌≢◌, ◌↔◌, arith, Bool, true, false, Option, none, some, List, [], ◌∷◌, ◌==◌,
  if◌then◌else◌, Map, lookup, nat_eq, All,
}
use phi_chain.Sdk.{Text, text}

pub data VoteRoute : Type 0 where
  vote_route_unspecified vote_route_public vote_route_technical : VoteRoute

abbrev pub mapping_update_msg_type_url : Text
mapping_update_msg_type_url = text "/phi.governance.MsgUpdateParams"

abbrev is_technical : Option VoteRoute → Bool
is_technical (some vote_route_technical) = true
is_technical (some vote_route_public) = false
is_technical (some vote_route_unspecified) = false
is_technical none = false

unfoldable pub route_for : Text → Map Text VoteRoute → VoteRoute
route_for url table =
    if url == mapping_update_msg_type_url
    then vote_route_public
    else (if is_technical (lookup url table) then vote_route_technical else vote_route_public)

-- The loop of Classify over the type URLs of the messages, and its answer after the last of them.
unfoldable pub classify_loop : List Text → Map Text VoteRoute → VoteRoute
classify_loop [] table = vote_route_technical
classify_loop (url ∷ urls) table =
    let rest = classify_loop urls table in
    elim (route_for url table) [
      | vote_route_public ↦ vote_route_public
      | vote_route_technical ↦ rest
      | vote_route_unspecified ↦ rest
    ]

unfoldable pub classify : List Text → Map Text VoteRoute → VoteRoute
unfolding classify_loop
classify [] table = vote_route_public
classify (url ∷ urls) table = classify_loop (url ∷ urls) table

-- A message that the table sends to the validators, and that does not rewrite the table.
pub record IsTechnical (table : Map Text VoteRoute) (url : Text) : Type 0 where
  pub listed : lookup url table ≡ some vote_route_technical
  pub no_mapping_update : url ≢ mapping_update_msg_type_url
