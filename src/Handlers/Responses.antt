-- ===== src/Handlers/Responses.antt =====
-- What a client is answered when a request fails.
use globant.Base.{ℕ, ◌≡◌, refl, inl, inr, none, some, [], ◌∷◌, ◌++◌, codes}
use globant.Errors.{Uuid, Exc, Result, ok, err, show_uuid, str, batch_not_found_error}
use globant.Models.{Db, find_batch}
use globant.Settings.{Settings}
use globant.UnitOfWork.{UnitOfWork}
use globant.UnitOfWork.Contract.{IsLawful, NoOutage}
use globant.UnitOfWork.Steps.{At}
use globant.BatchStatus.{get_batch_status, BatchStatusResponse}
use globant.BatchStatus.Polled.{Polled, get_batch_status-Polled}
use globant.Handlers.{JsonResponse, base_error_handler}

abbrev pub not_found : Uuid → JsonResponse
not_found b = record {
  status_code = 404;
  message = codes "Batch " ++ (show_uuid b ++ codes " not found");
  code = codes "BATCH_NOT_FOUND";
  context = (codes "batch_id", str (show_uuid b)) ∷ [];
}

module _ (U : UnitOfWork) (L : IsLawful NoOutage U) (settings : Settings) (now : ℕ) (b : Uuid)
    (db : Db) where
  answered :
      (out : Result BatchStatusResponse) (s : U.State) (e : Exc)
      → Polled NoOutage U L settings now b db out s
      → out ≡ err e
      → (find_batch b db.batches ≡ none) × (base_error_handler e ≡ some (not_found b))
  unfolding base_error_handler batch_not_found_error
  answered (ok response) s e h same = cc
  answered (err e') s e (inl (missing, which, _)) same =
      let found : e ≡ batch_not_found_error b = cc in (missing, rw found refl)
  answered (err e') s e (inr lost) same = absurd lost.0

  -- Without an outage, a poll from a clean transaction raises for an unknown batch only, and the
  -- handler answers that with status 404 and the id of the batch.
  pub get_batch_status-not_found :
      (s : U.State) (e : Exc)
      → At db db (L.view s)
      → (get_batch_status settings U now b s).0 ≡ err e
      → (find_batch b db.batches ≡ none) × (base_error_handler e ≡ some (not_found b))
  get_batch_status-not_found s e h raised =
      let (out, s') = get_batch_status settings U now b s in
      answered out s' e (get_batch_status-Polled NoOutage U L settings now b db s h) raised
