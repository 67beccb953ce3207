-- ===== src/Credentials/Service/Effects.antt =====
-- x/credentials: what a message that goes through has done to the store.
use phi_chain.Base.{
  ℕ, ◌≡◌, refl, ap, arith, [], true, false, some, inl, inr, pos, lookup, nat_eq, pair_eq,
  Option-cases, ok, Result-cases,
}
use phi_chain.Sdk.{Text}
use phi_chain.Identity.Store.{Host, IdentityStore}
use phi_chain.Credentials.Types
use phi_chain.Credentials.Types.{
  CredentialTemplate, CredentialAnchor, Agreement, MsgRegisterTemplate, MsgUpdateTemplate,
  MsgAnchorCredential, MsgCreateAgreement, MsgSignAgreement, MsgAnchorPersonal, Error,
  CredentialStore, is_deprecated, is_revoked_credential, is_pending,
}
use phi_chain.Credentials.Handlers.{
  get_template, set_template, get_anchor, set_anchor, get_agreement, set_agreement,
  set_personal_anchor, auth_did, update_params, owned_template, deprecate_template,
  revoke_credential, create_agreement, cancel_agreement, signed, new_template, register_template,
  updated, update_template, anchor_credential, sign_agreement, anchor_personal,
}
use phi_chain.Credentials.Service.{
  CredentialMsg, add_template, change_template, end_template, anchor, revoke_anchor, agree, sign,
  end_agreement, keep_personal, set_limit, process,
}
use phi_chain.Credentials.Service.Evolution.{IsKeyed}
use phi_chain.Credentials.Service.Agreements.{AreDistinct, IsHonest, signed-IsHonest}

-- A template keeps its owner and its key, and everything once it is deprecated.
pub record TemplateStep (old new : CredentialTemplate) : Type 0 where
  pub owner : new.owner_did ≡ old.owner_did
  pub key : new.issuer_bbs_pubkey ≡ old.issuer_bbs_pubkey
  pub final : is_deprecated old.status ≡ true → new ≡ old

-- Of an anchor only the status changes, and nothing once it is revoked.
pub record AnchorStep (old new : CredentialAnchor) : Type 0 where
  pub content : new ≡ record old { status = new.status }
  pub final : is_revoked_credential old.status ≡ true → new ≡ old

-- An agreement keeps its parties, and everything once it is not pending any more.
pub record AgreementStep (old new : Agreement) : Type 0 where
  pub parties : new.required_signers ≡ old.required_signers
  pub author : new.creator ≡ old.creator
  pub final : is_pending old.status ≡ false → new ≡ old

-- Templates, anchors and agreements are stored under their own ids.
pub record IsFiled (s : CredentialStore) : Type 0 where
  pub templates : IsKeyed (λ t. t.id) s.templates
  pub anchors : IsKeyed (λ a. a.credential_hash) s.anchors
  pub agreements : IsKeyed (λ a. a.hash) s.agreements

unfoldable pub HasHonest : CredentialStore → Type 0
HasHonest s = (k : Text) (ag : Agreement) → lookup k s.agreements ≡ some ag → IsHonest ag

pub data Effect (s t : CredentialStore) : Type 0 where
  beside :
      t.templates ≡ s.templates → t.anchors ≡ s.anchors → t.agreements ≡ s.agreements → Effect s t
  templated :
      (v : CredentialTemplate)
      → ((old : CredentialTemplate) → lookup v.id s.templates ≡ some old → TemplateStep old v)
      → t ≡ set_template v s
      → Effect s t
  anchored :
      (v : CredentialAnchor)
      → ((old : CredentialAnchor)
          → lookup v.credential_hash s.anchors ≡ some old
          → AnchorStep old v)
      → t ≡ set_anchor v s
      → Effect s t
  agreed :
      (v : Agreement)
      → ((old : Agreement) → lookup v.hash s.agreements ≡ some old → AgreementStep old v)
      → (HasHonest s → IsHonest v)
      → t ≡ set_agreement v s
      → Effect s t

owned_template-eq-ok :
    (creator id : Text) (ids : IdentityStore) (s : CredentialStore) (t : CredentialTemplate)
    → owned_template creator id ids s ≡ ok t
    → (lookup id s.templates ≡ some t) × (is_deprecated t.status ≡ false)
unfolding owned_template get_template
owned_template-eq-ok creator id ids s t h = elim (Option-cases (lookup id s.templates)) [
  | inl missing ↦ absurd (ground (arith, h, missing))
  | inr (v, found) ↦ elim (Result-cases (auth_did v.owner_did creator ids)) [
    | inr (e, failed) ↦ absurd (ground (arith, h, found, failed))
    | inl (key, passed) ↦ (ground (arith, h, found, passed), ground (arith, h, found, passed))
  ]
]

-- A template that was found and is changed but for its id, its owner and its key.
template_changed :
    (s t : CredentialStore) (id : Text) (old new : CredentialTemplate)
    → IsFiled s
    → lookup id s.templates ≡ some old
    → is_deprecated old.status ≡ false
    → new.id ≡ old.id
    → new.owner_did ≡ old.owner_did
    → new.issuer_bbs_pubkey ≡ old.issuer_bbs_pubkey
    → t ≡ set_template new s
    → Effect s t
unfolding IsKeyed
template_changed s t id old new i found live same owner key e =
    let own : old.id ≡ id = i.templates id old found in
    templated new
      (λ was h.
        let at : was ≡ old = ground (arith, h, found, own, same) in
        record {
          owner = ground (arith, owner, at);
          key = ground (arith, key, at);
          final = λ dead. absurd (ground (arith, dead, live, at));
        })
      e

agreement_changed :
    (s t : CredentialStore) (hash : Text) (old new : Agreement)
    → IsFiled s
    → lookup hash s.agreements ≡ some old
    → is_pending old.status ≡ true
    → new.hash ≡ old.hash
    → new.required_signers ≡ old.required_signers
    → new.creator ≡ old.creator
    → (IsHonest old → IsHonest new)
    → t ≡ set_agreement new s
    → Effect s t
unfolding IsKeyed HasHonest
agreement_changed s t hash old new i found live same parties author honest e =
    let own : old.hash ≡ hash = i.agreements hash old found in
    agreed new
      (λ was h.
        let at : was ≡ old = ground (arith, h, found, own, same) in
        record {
          parties = ground (arith, parties, at);
          author = ground (arith, author, at);
          final = λ dead. absurd (ground (arith, dead, live, at));
        })
      (λ all. honest (all hash old found)) e

module _ ⦃host : Host⦄ where
  change_template-Effect :
      (t : ℕ) (ids : IdentityStore) (m : MsgUpdateTemplate) (s u : CredentialStore)
      → IsFiled s
      → update_template t m ids s ≡ ok u
      → Effect s u
  unfolding update_template updated
  change_template-Effect t ids m s u i h =
      elim (Result-cases (owned_template m.creator m.id ids s)) [
        | inr (e, failed) ↦ absurd (ground (arith, h, failed))
        | inl (v, owned) ↦
            let (found, live) = owned_template-eq-ok m.creator m.id ids s v owned in
            template_changed s u m.id v (updated (pos t) m v) i found live refl refl refl
              (ground (arith, h, owned))
      ]

  end_template-Effect :
      (t : ℕ) (creator id : Text) (ids : IdentityStore) (s u : CredentialStore)
      → IsFiled s
      → deprecate_template t creator id ids s ≡ ok u
      → Effect s u
  unfolding deprecate_template
  end_template-Effect t creator id ids s u i h =
      elim (Result-cases (owned_template creator id ids s)) [
        | inr (e, failed) ↦ absurd (ground (arith, h, failed))
        | inl (v, owned) ↦
            let (found, live) = owned_template-eq-ok creator id ids s v owned in
            template_changed s u id v
              (record v { status = Types.template_deprecated; updated_at = pos t }) i found live
              refl refl refl (ground (arith, h, owned))
      ]

  add_template-Effect :
      (t : ℕ) (ids : IdentityStore) (m : MsgRegisterTemplate) (s u : CredentialStore)
      → register_template t m ids s ≡ ok u
      → Effect s u
  unfolding register_template get_template new_template
  add_template-Effect t ids m s u h = elim (Result-cases (auth_did m.owner_did m.creator ids)) [
    | inr (e, failed) ↦ absurd (ground (arith, h, failed))
    | inl (key, passed) ↦
        templated (new_template (pos t) m) (λ old was. absurd (ground (arith, h, was, passed)))
          (ground (arith, h, passed))
  ]

  anchor-Effect :
      (t : ℕ) (ids : IdentityStore) (m : MsgAnchorCredential) (s u : CredentialStore)
      → anchor_credential t m ids s ≡ ok u
      → Effect s u
  unfolding anchor_credential get_anchor get_template
  anchor-Effect t ids m s u h = elim (Result-cases (auth_did m.issuer_did m.issuer ids)) [
    | inr (e, failed) ↦ absurd (ground (arith, h, failed))
    | inl (key, passed) ↦ elim (Option-cases (lookup m.template_id s.templates)) [
      | inl missing ↦ absurd (ground (arith, h, passed, missing))
      | inr (v, found) ↦
          anchored
            (record {
              credential_hash = m.credential_hash;
              template_id = m.template_id;
              template_version = m.template_version;
              issuer_did = m.issuer_did;
              subject_did = m.subject_did;
              issued_at = pos t;
              status = Types.credential_active;
            })
            (λ old was. absurd (ground (arith, h, was, passed, found)))
            (ground (arith, h, passed, found))
    ]
  ]

  revoke_anchor-Effect :
      (issuer hash : Text) (ids : IdentityStore) (s u : CredentialStore)
      → IsFiled s
      → revoke_credential issuer hash ids s ≡ ok u
      → Effect s u
  unfolding revoke_credential get_anchor IsKeyed
  revoke_anchor-Effect issuer hash ids s u i h = elim (Option-cases (lookup hash s.anchors)) [
    | inl missing ↦ absurd (ground (arith, h, missing))
    | inr (a, found) ↦ elim (Result-cases (auth_did a.issuer_did issuer ids)) [
      | inr (e, failed) ↦ absurd (ground (arith, h, found, failed))
      | inl (key, passed) ↦
          let own : a.credential_hash ≡ hash = i.anchors hash a found in
          let live : is_revoked_credential a.status ≡ false = ground (arith, h, found, passed) in
          anchored (record a { status = Types.credential_revoked })
            (λ old was.
              let at : a ≡ old = ground (arith, was, found, own) in
              record {
                content =
                    ap {A = CredentialAnchor} (λ x. record x { status = Types.credential_revoked })
                      at;
                final = λ dead. absurd (ground (arith, dead, live, at));
              })
            (ground (arith, h, found, passed))
    ]
  ]

  agree-Effect :
      (t : ℕ) (m : MsgCreateAgreement) (s u : CredentialStore)
      → create_agreement t m s ≡ ok u
      → Effect s u
  unfolding create_agreement get_agreement AreDistinct
  agree-Effect t m s u h =
      agreed
        (record {
          hash = m.hash;
          creator = m.creator;
          required_signers = m.required_signers;
          signatures = [];
          deadline = m.deadline;
          status = Types.agreement_pending;
          created_at = pos t;
        })
        (λ old was. absurd (ground (arith, h, was)))
        (λ all. record {
          distinct = tt;
          listed = tt;
          whole = λ done. absurd (ground (arith, done));
        })
        (ground (arith, h))

  sign-Effect :
      (t : ℕ) (ids : IdentityStore) (m : MsgSignAgreement) (s u : CredentialStore)
      → IsFiled s
      → sign_agreement t m ids s ≡ ok u
      → Effect s u
  unfolding sign_agreement get_agreement signed
  sign-Effect t ids m s u i h = elim (Option-cases (lookup m.hash s.agreements)) [
    | inl missing ↦ absurd (ground (arith, h, missing))
    | inr (ag, found) ↦ elim (Result-cases (auth_did m.signer_did m.signer ids)) [
      | inr (e, failed) ↦ absurd (ground (arith, h, found, failed))
      | inl (key, passed) ↦
          agreement_changed s u m.hash ag (signed (pos t) m.signer_did ag) i found
            (ground (arith, h, found, passed)) refl refl refl
            (λ honest.
              signed-IsHonest (pos t) m.signer_did ag honest (ground (arith, h, found, passed))
                (ground (arith, h, found, passed)) (ground (arith, h, found, passed)))
            (ground (arith, h, found, passed))
    ]
  ]

  end_agreement-Effect :
      (creator hash : Text) (s u : CredentialStore)
      → IsFiled s
      → cancel_agreement creator hash s ≡ ok u
      → Effect s u
  unfolding cancel_agreement get_agreement
  end_agreement-Effect creator hash s u i h = elim (Option-cases (lookup hash s.agreements)) [
    | inl missing ↦ absurd (ground (arith, h, missing))
    | inr (ag, found) ↦
        agreement_changed s u hash ag (record ag { status = Types.agreement_cancelled }) i found
          (ground (arith, h, found)) refl refl refl
          (λ honest. record {
            distinct = honest.distinct;
            listed = honest.listed;
            whole = λ done. absurd (ground (arith, done));
          })
          (ground (arith, h, found))
  ]

  keep_personal-Effect :
      (t : ℕ) (ids : IdentityStore) (m : MsgAnchorPersonal) (s u : CredentialStore)
      → anchor_personal t m ids s ≡ ok u
      → Effect s u
  unfolding anchor_personal set_personal_anchor
  keep_personal-Effect t ids m s u h = elim (Result-cases (auth_did m.owner_did m.owner ids)) [
    | inr (e, failed) ↦ absurd (ground (arith, h, failed))
    | inl (key, passed) ↦
        beside (ground (arith, h, passed)) (ground (arith, h, passed)) (ground (arith, h, passed))
  ]

  pub process-Effect :
      (t : ℕ) (ids : IdentityStore) (m : CredentialMsg) (s u : CredentialStore)
      → IsFiled s
      → process t ids m s ≡ ok u
      → Effect s u
  unfolding process update_params
  process-Effect t ids (add_template m) s u i h = add_template-Effect t ids m s u h
  process-Effect t ids (change_template m) s u i h = change_template-Effect t ids m s u i h
  process-Effect t ids (end_template creator id) s u i h =
      end_template-Effect t creator id ids s u i h
  process-Effect t ids (anchor m) s u i h = anchor-Effect t ids m s u h
  process-Effect t ids (revoke_anchor issuer hash) s u i h =
      revoke_anchor-Effect issuer hash ids s u i h
  process-Effect t ids (agree m) s u i h = agree-Effect t m s u h
  process-Effect t ids (sign m) s u i h = sign-Effect t ids m s u i h
  process-Effect t ids (end_agreement creator hash) s u i h =
      end_agreement-Effect creator hash s u i h
  process-Effect t ids (keep_personal m) s u i h = keep_personal-Effect t ids m s u h
  process-Effect t ids (set_limit authority n) s u i h =
      beside (ground (arith, h)) (ground (arith, h)) (ground (arith, h))
