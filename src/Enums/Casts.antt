-- ===== src/Enums/Casts.antt =====
-- The casts between Datastore and the numbers of the C library.
use sysrepo_cpp.Base.{ℕ, zero, suc, ◌≡◌, refl}
use sysrepo_cpp.Enums.Kinds.{to_datastore, as_datastore}

-- A number that is cast to the enumeration comes back.
pub to_datastore-as_datastore : (n : ℕ) → to_datastore (as_datastore n) ≡ n
unfolding to_datastore as_datastore
to_datastore-as_datastore zero = refl
to_datastore-as_datastore (suc zero) = refl
to_datastore-as_datastore (suc (suc zero)) = refl
to_datastore-as_datastore (suc (suc (suc zero))) = refl
to_datastore-as_datastore (suc (suc (suc (suc zero)))) = refl
to_datastore-as_datastore n = refl
