-- ===== src/Workers/World.antt =====
-- What the worker is built from, and the state of all of it.
use globant.Action.{Action}
use globant.Errors.{Result}
use globant.Ports.{CachePort, StoragePort}
use globant.UnitOfWork.{UnitOfWork}

pub record Services : Type 1 where
  pub uow : UnitOfWork
  pub cache : CachePort
  pub storage : StoragePort

module _ (V : Services) where
  open V use {uow as U, cache as C, storage as F}

  pub record World : Type 0 where
    pub uow : U.State
    pub cache : C.State
    pub storage : F.State

  module _ {A : Type 0} where
    abbrev pub on_uow : Action U.State A → Action World A
    on_uow m w = let (r, s) = m w.uow in (r, record w { uow = s })

    abbrev pub on_cache : Action C.State A → Action World A
    on_cache m w = let (r, s) = m w.cache in (r, record w { cache = s })

    abbrev pub on_storage : Action F.State A → Action World A
    on_storage m w = let (r, s) = m w.storage in (r, record w { storage = s })

    -- A computation that may raise and changes nothing.
    abbrev pub lift : Result A → Action World A
    lift r w = (r, w)
