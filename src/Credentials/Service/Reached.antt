-- ===== src/Credentials/Service/Reached.antt =====
-- x/credentials: what stays of templates, anchors and agreements in every state that messages reach.
use phi_chain.Base.{
  ◌≡◌, ◌≢◌, refl, ◌∙◌, arith, true, some, [], ◌==◌, inl, inr, subst, Bool-cases, lookup,
  lookup-insert, nat_eq,
}
use phi_chain.Sdk.{Text}
use phi_chain.Identity.Store.{Host}
use phi_chain.Credentials.Types.{CredentialTemplate, CredentialAnchor, Agreement, CredentialStore}
use phi_chain.Credentials.Handlers.{
  set_template, set_anchor, set_agreement, contains_string, has_signed,
}
use phi_chain.Credentials.Service.{Trace, start, after}
use phi_chain.Credentials.Service.Evolution.{
  Evolves, Evolves-refl, Evolves-trans, Evolves-insert, IsKeyed-insert,
}
use phi_chain.Credentials.Service.Agreements.{IsHonest, is_completed, completed-signed}
use phi_chain.Credentials.Service.Effects.{
  TemplateStep, AnchorStep, AgreementStep, IsFiled, Effect, beside, templated, anchored, agreed,
  process-Effect, HasHonest,
}

TemplateStep-refl : (t : CredentialTemplate) → TemplateStep t t
TemplateStep-refl t = record { owner = refl; key = refl; final = λ dead. refl }

AnchorStep-refl : (a : CredentialAnchor) → AnchorStep a a
AnchorStep-refl a = record { content = refl; final = λ dead. refl }

AgreementStep-refl : (a : Agreement) → AgreementStep a a
AgreementStep-refl a = record { parties = refl; author = refl; final = λ dead. refl }

TemplateStep-trans :
    (a b c : CredentialTemplate) → TemplateStep a b → TemplateStep b c → TemplateStep a c
TemplateStep-trans a b c p q = record {
  owner = q.owner ∙ p.owner;
  key = q.key ∙ p.key;
  final = λ dead. let same = p.final dead in q.final (rw same dead) ∙ same;
}

AnchorStep-trans : (a b c : CredentialAnchor) → AnchorStep a b → AnchorStep b c → AnchorStep a c
AnchorStep-trans a b c p q = record {
  content = ground (arith, p.content, q.content);
  final = λ dead. let same = p.final dead in q.final (rw same dead) ∙ same;
}

AgreementStep-trans :
    (a b c : Agreement) → AgreementStep a b → AgreementStep b c → AgreementStep a c
AgreementStep-trans a b c p q = record {
  parties = q.parties ∙ p.parties;
  author = q.author ∙ p.author;
  final = λ dead. let same = p.final dead in q.final (rw same dead) ∙ same;
}

-- What stays of the entries of a store.
pub record Lasts (s t : CredentialStore) : Type 0 where
  pub templates : Evolves TemplateStep s.templates t.templates
  pub anchors : Evolves AnchorStep s.anchors t.anchors
  pub agreements : Evolves AgreementStep s.agreements t.agreements

Lasts-refl : (s : CredentialStore) → Lasts s s
Lasts-refl s = record {
  templates = Evolves-refl TemplateStep TemplateStep-refl s.templates;
  anchors = Evolves-refl AnchorStep AnchorStep-refl s.anchors;
  agreements = Evolves-refl AgreementStep AgreementStep-refl s.agreements;
}

Lasts-trans : (s t u : CredentialStore) → Lasts s t → Lasts t u → Lasts s u
Lasts-trans s t u p q = record {
  templates =
      Evolves-trans TemplateStep TemplateStep-trans s.templates t.templates u.templates p.templates
        q.templates;
  anchors =
      Evolves-trans AnchorStep AnchorStep-trans s.anchors t.anchors u.anchors p.anchors q.anchors;
  agreements =
      Evolves-trans AgreementStep AgreementStep-trans s.agreements t.agreements u.agreements
        p.agreements q.agreements;
}

Effect-Lasts : (s t : CredentialStore) → Effect s t → Lasts s t
unfolding set_template set_anchor set_agreement
Effect-Lasts s t (beside a b c) = record {
  templates = rw a (Lasts-refl s).templates;
  anchors = rw b (Lasts-refl s).anchors;
  agreements = rw c (Lasts-refl s).agreements;
}
Effect-Lasts s t (templated v step e) = rw e (record {
  templates = Evolves-insert TemplateStep TemplateStep-refl v.id v s.templates step;
  anchors = (Lasts-refl s).anchors;
  agreements = (Lasts-refl s).agreements;
})
Effect-Lasts s t (anchored v step e) = rw e (record {
  templates = (Lasts-refl s).templates;
  anchors = Evolves-insert AnchorStep AnchorStep-refl v.credential_hash v s.anchors step;
  agreements = (Lasts-refl s).agreements;
})
Effect-Lasts s t (agreed v step honest e) = rw e (record {
  templates = (Lasts-refl s).templates;
  anchors = (Lasts-refl s).anchors;
  agreements = Evolves-insert AgreementStep AgreementStep-refl v.hash v s.agreements step;
})

Effect-IsFiled : (s t : CredentialStore) → Effect s t → IsFiled s → IsFiled t
unfolding set_template set_anchor set_agreement
Effect-IsFiled s t (beside a b c) i = record {
  templates = rw a i.templates;
  anchors = rw b i.anchors;
  agreements = rw c i.agreements;
}
Effect-IsFiled s t (templated v step e) i = rw e (record {
  templates = IsKeyed-insert (λ x. x.id) v s.templates i.templates;
  anchors = i.anchors;
  agreements = i.agreements;
})
Effect-IsFiled s t (anchored v step e) i = rw e (record {
  templates = i.templates;
  anchors = IsKeyed-insert (λ x. x.credential_hash) v s.anchors i.anchors;
  agreements = i.agreements;
})
Effect-IsFiled s t (agreed v step honest e) i = rw e (record {
  templates = i.templates;
  anchors = i.anchors;
  agreements = IsKeyed-insert (λ x. x.hash) v s.agreements i.agreements;
})

Effect-HasHonest : (s t : CredentialStore) → Effect s t → HasHonest s → HasHonest t
unfolding HasHonest set_template set_anchor set_agreement
Effect-HasHonest s t (beside a b c) i = λ k ag h. i k ag (rw (← c) h)
Effect-HasHonest s t (templated v step e) i = rw e i
Effect-HasHonest s t (anchored v step e) i = rw e i
Effect-HasHonest s t (agreed v step honest e) i = rw e (λ k ag h. elim (Bool-cases (v.hash == k)) [
  | inl same ↦
      let at : v ≡ ag = ground (arith, h, same, lookup-insert v.hash k v s.agreements) in
      subst IsHonest at (honest i)
  | inr other ↦ i k ag (ground (arith, h, other, lookup-insert v.hash k v s.agreements))
])

no_agreement :
    (s : CredentialStore) (k : Text) (ag : Agreement)
    → s.agreements ≡ []
    → lookup k s.agreements ≢ some ag
unfolding lookup
no_agreement s k ag e h = ground (arith, e, h)

module _ ⦃host : Host⦄ where
  Trace-IsFiled : {s t : CredentialStore} → IsFiled s → Trace s t → IsFiled t
  Trace-IsFiled i start = i
  Trace-IsFiled {s} {t} i (after {t = x} block_time ids m r step) =
      let before = Trace-IsFiled i r in
      Effect-IsFiled x t (process-Effect block_time ids m x t before step) before

  -- What others rely on stays: from a store whose entries stand under their own ids, in every state
  -- that messages reach, each template has the owner and the key that it had, each anchor certifies what
  -- it did, and each agreement has its parties; a deprecated template, a revoked anchor and an agreement
  -- that is not pending any more never change.
  pub Trace-Lasts : {s t : CredentialStore} → IsFiled s → Trace s t → Lasts s t
  Trace-Lasts {s} i start = Lasts-refl s
  Trace-Lasts {s} {t} i (after {t = x} block_time ids m r step) =
      Lasts-trans s x t (Trace-Lasts i r)
        (Effect-Lasts x t (process-Effect block_time ids m x t (Trace-IsFiled i r) step))

  Trace-HasHonest : {s t : CredentialStore} → IsFiled s → HasHonest s → Trace s t → HasHonest t
  Trace-HasHonest i honest start = honest
  Trace-HasHonest {s} {t} i honest (after {t = x} block_time ids m r step) =
      Effect-HasHonest x t (process-Effect block_time ids m x t (Trace-IsFiled i r) step)
        (Trace-HasHonest i honest r)

  -- A completed agreement has the signature of every party: from a store without agreements whose
  -- other entries stand under their own ids, in every state that messages reach, whoever is required to
  -- sign an agreement that is completed has signed it.
  pub Trace-signed :
      {s t : CredentialStore} (hash : Text) (ag : Agreement) (d : Text)
      → IsFiled s
      → s.agreements ≡ []
      → Trace s t
      → lookup hash t.agreements ≡ some ag
      → is_completed ag.status ≡ true
      → contains_string ag.required_signers d ≡ true
      → has_signed ag.signatures d ≡ true
  unfolding HasHonest
  Trace-signed {s} {t} hash ag d i none_yet r found done =
      let honest : HasHonest s = λ k x h. absurd (no_agreement s k x none_yet h) in
      completed-signed ag (Trace-HasHonest i honest r hash ag found) done d
