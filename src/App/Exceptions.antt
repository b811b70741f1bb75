-- ===== src/App/Exceptions.antt =====
-- Which exceptions the handlers answer, and how.
use globant.Base.{ℕ, ◌≡◌, refl, ap, ◌∙◌, ◌⊎◌, inl, inr, true, none, some, Text}
use globant.Errors.{
  Exc, is_operational, http_exception, operational_error, integrity_error, base_error, other,
  ingestion_db_unavailable_error,
}
use globant.Errors.Translator.{translate_db_error}
use globant.Handlers.{JsonResponse, base_error_handler}
use globant.Api.Posted.{Refused}
use globant.App.{Platform}
use globant.App.Serve.{Framework, Documented}
use globant.App.Answered.{Handled}

operational-cases :
    (e : Exc) → is_operational e ≡ true → (message : Text) × (e ≡ operational_error message)
operational-cases (operational_error t) h = (t, refl)
operational-cases (integrity_error t) h = absurd (cc)
operational-cases (http_exception n t) h = absurd (cc)
operational-cases (base_error m c x k n) h = absurd (cc)
operational-cases (other t) h = absurd (cc)

module _ (P : Platform) (F : Framework P.services.cache.Json) where
  -- An exception that no handler takes.
  abbrev pub Unhandled : Exc → Type 0
  Unhandled e = (base_error_handler e ≡ none) × (F.default_handler e ≡ none)

  -- An exception that is answered with a status.
  abbrev pub Gives : ℕ → Exc → Type 0
  Gives n e =
      ((j : JsonResponse) × (base_error_handler e ≡ some j) × (j.status_code ≡ n))
      ⊎ ((base_error_handler e ≡ none)
          × ((r : F.Response) × (F.default_handler e ≡ some r) × (F.status r ≡ n)))

  pub Gives-Handled :
      (n : ℕ) (e : Exc) (r : F.Response) → Gives n e → Handled P F e r → F.status r ≡ n
  Gives-Handled n e r (inl (j, found, given)) (inl (j', found', given')) =
      let same : j' ≡ j = cc in given' ∙ ap (λ k. k.status_code) same ∙ given
  Gives-Handled n e r (inl (j, found, given)) (inr (none', _)) = absurd (cc)
  Gives-Handled n e r (inr (none', _)) (inl (j, found, given)) = absurd (cc)
  Gives-Handled n e r (inr (_, (r0, found, given))) (inr (_, (r1, found', given'))) =
      let same : r1 ≡ r0 = cc in given' ∙ ap F.status same ∙ given

  module _ (D : Documented F) where
    pub plain-Unhandled : (e : Exc) (message : Text) → e ≡ other message → Unhandled e
    unfolding base_error_handler
    plain-Unhandled e message same = rw same (refl, D.other_lem message)

    pub operational-Unhandled : (e : Exc) → is_operational e ≡ true → Unhandled e
    unfolding base_error_handler
    operational-Unhandled e h =
        let (message, same) = operational-cases e h in rw same (refl, D.operational_lem message)

    pub Refused-Gives : (e : Exc) → Refused e → Gives 422 e
    unfolding base_error_handler
    Refused-Gives e (detail, same) = rw same (inr (refl, D.http_exception_lem 422 detail))

    pub translated-Gives : (e : Exc) → is_operational e ≡ true → Gives 503 (translate_db_error e)
    unfolding base_error_handler translate_db_error ingestion_db_unavailable_error
    translated-Gives e h =
        let (message, same) = operational-cases e h in rw same (inl (_, refl, refl))
