-- ===== src/Mutex/Exclusion.antt =====
-- Mutual exclusion, as the callers see it.
use node_messager.Base.{◌≡◌, refl, Option, none, some, [], string_eq}
use node_messager.Dto.{Node, lock_request, Codec, LockPayload}
use node_messager.Mutex.{send_to}
use node_messager.Mutex.Permits.{permits}

module _ {Raw : Type 0} (json : Codec Raw LockPayload) where
  permits_lock_request :
      (o : Option Node) (p : LockPayload) → permits (send_to o lock_request p) ≡ []
  permits_lock_request none p = refl
  permits_lock_request (some x) p = refl
