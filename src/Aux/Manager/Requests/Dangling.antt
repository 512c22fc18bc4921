-- ===== src/Aux/Manager/Requests/Dangling.antt =====
-- What a payload names when access to its shared storage was refused.
use zss.Prelude.{
  ℕ, ◌<◌, ◌≡◌, ◌∙◌, refl, ap, true, false, none, some, length, Bytes, bytes_eq, bytes_eq_refl, leb,
  arith,
}
use zss.Aux.Return.{rc_zisaux_shr64_error}
use zss.Aux.{Buffer, inline_data_size, empty_buffer}
use zss.Aux.Manager.{Manager, mgr_eyecatcher}
use zss.Aux.Manager.Requests.{
  SharedStorage, let_go, alloc_shared, fill_shared, zisaux_mgr_init_request_payload,
  zisaux_mgr_clean_request,
}

module _ (shared : SharedStorage) {T : Type 0} (mgr : Manager T) where
  open shared use {Storage, alloc, get_access, remove_access, release}

  -- The payload that is left.
  abbrev pub dangling : ℕ → Buffer
  dangling a = record empty_buffer { address = some a }

  -- If access to the shared storage of a payload is refused, the storage is released and the call fails, but the payload still names it.
  -- Cleaning the payload then releases the same storage a second time: if the system refuses that, the cleaning fails as
  -- well and leaves the payload as it is. The data do not fit into the payload, the manager has its eyecatcher, and the
  -- storage is allocated and released once.
  pub init_request_payload-clean_request :
      (s s1 s2 : Storage) (payload : Buffer) (request_data : Bytes) (a : ℕ)
      → mgr.eyecatcher ≡ mgr_eyecatcher
      → inline_data_size < length request_data
      → alloc s mgr.shared_storage_token (length request_data) ≡ some (a, s1)
      → get_access s1 mgr.shared_storage_token a ≡ none
      → release s1 mgr.shared_storage_token a ≡ some s2
      → release (remove_access s2 mgr.shared_storage_token a) mgr.shared_storage_token a ≡ none
      → (zisaux_mgr_init_request_payload shared mgr s payload request_data
          ≡ (rc_zisaux_shr64_error, dangling a, s2))
        × (zisaux_mgr_clean_request shared mgr s2 (dangling a)
            ≡ (rc_zisaux_shr64_error, dangling a, remove_access s2 mgr.shared_storage_token a))
  unfolding zisaux_mgr_init_request_payload alloc_shared fill_shared zisaux_mgr_clean_request
  init_request_payload-clean_request s s1 s2 payload request_data a eye long allocated refused
        given_back again =
      let same : bytes_eq mgr.eyecatcher mgr_eyecatcher ≡ true =
        ap (λ b. bytes_eq b mgr_eyecatcher) eye ∙ bytes_eq_refl mgr_eyecatcher in
      let large : leb (length request_data) inline_data_size ≡ false = ground (arith, long) in
      let result : alloc_shared shared s mgr.shared_storage_token (length request_data)
          ≡ (let_go a, s2) =
        rw (allocated, alloc_shared) (rw (refused, alloc_shared) (rw given_back refl)) in
      (
        rw (same, zisaux_mgr_init_request_payload) (rw large (rw result refl)),
        rw (same, zisaux_mgr_clean_request) (rw again refl),
      )
