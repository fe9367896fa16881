-- ===== src/Responder/Statuses.antt =====
-- The status that a response gets from its responders.
use saphir.Base.{◌⊎◌, inl, inr, ◌≡◌, refl, ap, ◌∙◌, Option, none, some, Result, ok, err, or_else}
use saphir.Response.{Builder, status}
use saphir.Response.Status.{
  chosen, IsTracked, status-chosen, status_if_not_set-chosen, status-IsTracked,
  status_if_not_set-IsTracked,
}
use saphir.Responder.{
  Respond, respond_option, respond_result, respond_status, respond_pair, dyn_respond,
}

module _ {Ext Jar Content C : Type 0} where
  -- A responder that keeps the flag of the builder true
  abbrev pub Keeps : Respond Ext Jar Content C → Type 0
  Keeps r = (b : Builder Ext Jar Content) (ctx : C) → IsTracked b → IsTracked (r b ctx)

  pub respond_option-Keeps :
      (o : Option (Respond Ext Jar Content C))
      → ((r : _) → o ≡ some r → Keeps r)
      → Keeps (respond_option o)
  unfolding respond_option
  respond_option-Keeps (some r) keeps b ctx tracked =
      status_if_not_set-IsTracked 200 (r b ctx) (keeps r refl b ctx tracked)
  respond_option-Keeps none keeps b ctx tracked = status_if_not_set-IsTracked 404 b tracked

  pub respond_pair-Keeps :
      (r s : Respond Ext Jar Content C) → Keeps r → Keeps s → Keeps (respond_pair r s)
  unfolding respond_pair
  respond_pair-Keeps r s keeps keeps' b ctx tracked = keeps' (r b ctx) ctx (keeps b ctx tracked)

  -- The status that the responder of the value chose, or 200, and that of the error, or 500
  pub respond_result-chosen :
      (outcome : Result (Respond Ext Jar Content C) (Respond Ext Jar Content C))
      (b : Builder Ext Jar Content) (ctx : C)
      → ((r : Respond Ext Jar Content C) → (outcome ≡ ok r) ⊎ (outcome ≡ err r) → Keeps r)
      → IsTracked b
      → chosen (respond_result outcome b ctx).inner ≡ elim outcome [
        | ok r ↦ or_else (chosen (r b ctx).inner) (some 200)
        | err r ↦ or_else (chosen (r b ctx).inner) (some 500)
      ]
  unfolding respond_result
  respond_result-chosen (ok r) b ctx keeps tracked =
      status_if_not_set-chosen 200 (r b ctx) (keeps r (inl refl) b ctx tracked)
  respond_result-chosen (err r) b ctx keeps tracked =
      status_if_not_set-chosen 500 (r b ctx) (keeps r (inr refl) b ctx tracked)

  -- A handler's responder answers once: the next answer is the status 500, whatever it is.
  pub dyn_respond-twice :
      (taken : Option (Respond Ext Jar Content C)) (b again : Builder Ext Jar Content) (ctx : C)
      → chosen (dyn_respond (dyn_respond taken b ctx).0 again ctx).1.inner ≡ some 500
  unfolding dyn_respond respond_result respond_status
  dyn_respond-twice none b again ctx =
      status_if_not_set-chosen 500 (status 500 again) (status-IsTracked 500 again)
      ∙ ap (λ o. or_else o (some 500)) (status-chosen 500 again)
  dyn_respond-twice (some r) b again ctx =
      status_if_not_set-chosen 500 (status 500 again) (status-IsTracked 500 again)
      ∙ ap (λ o. or_else o (some 500)) (status-chosen 500 again)
