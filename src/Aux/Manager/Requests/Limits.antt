-- ===== src/Aux/Manager/Requests/Limits.antt =====
-- Where the text of a command ends up.
use zss.Prelude.{
  ℕ, ◌+◌, ◌-◌, ◌%◌, ◌<◌, ◌≡◌, refl, ap, ◌∙◌, ◌++◌, length, take, drop, replicate, Bytes, arith,
  take-append, take-all, drop-append, drop-drop, drop-all, length-replicate,
}
use zss.Aux.Return.{rc_zisaux_ok}
use zss.Aux.{command_text_size}
use zss.Aux.Manager.Requests.{copy_in, zisaux_mgr_init_command}

-- The text behind the blanks that were written first.
init_command-text :
    (storage : Bytes) (route_info : ℕ) (command_text : Bytes)
    → length command_text < 256
    → (zisaux_mgr_init_command storage route_info command_text).1.text
      ≡ command_text
        ++ drop
            (length command_text)
            (replicate command_text_size b' ' ++ drop command_text_size storage)
unfolding zisaux_mgr_init_command copy_in
init_command-text storage route_info command_text l =
    let e : length command_text % 256 ≡ length command_text = omega arith in
    rw e (rw (take-all (length command_text) command_text (omega arith)) refl)

-- What lies behind the first k bytes when a text is written over a block of k bytes.
behind-written :
    (k : ℕ) (text block behind : Bytes)
    → length block ≡ k
    → drop k (text ++ drop (length text) (block ++ behind))
      ≡ drop k text ++ drop (length text - k) behind
behind-written k text block behind n =
    let m = length text + (k - length text) in
    drop-append k text _
    ∙ ap (λ rest. drop k text ++ rest)
        (drop-drop (k - length text) (length text) (block ++ behind)
          ∙ drop-append m block behind
          ∙ ap (λ rest. rest ++ drop (m - length block) behind) (drop-all m block (omega arith))
          ∙ ap (λ i. drop i behind) (omega arith))

-- A command text of less than 256 bytes is always accepted and stored at the length that it has. The bytes of
-- the text that are past the 126 of the field overwrite the storage behind the field; what is
-- behind them is left alone.
pub init_command-stored :
    (storage : Bytes) (route_info : ℕ) (command_text : Bytes)
    → length command_text < 256
    → ((zisaux_mgr_init_command storage route_info command_text).0 ≡ rc_zisaux_ok)
      × ((zisaux_mgr_init_command storage route_info command_text).1.length ≡ length command_text)
      × (take (length command_text) (zisaux_mgr_init_command storage route_info command_text).1.text
          ≡ command_text)
      × (drop command_text_size (zisaux_mgr_init_command storage route_info command_text).1.text
          ≡ drop command_text_size command_text
            ++ drop (length command_text - command_text_size) (drop command_text_size storage))
unfolding zisaux_mgr_init_command
init_command-stored storage route_info command_text l =
    let e = init_command-text storage route_info command_text l in
    (
      refl,
      omega arith,
      ap (take (length command_text)) e ∙ take-append command_text _,
      ap (drop command_text_size) e
          ∙ behind-written command_text_size command_text (replicate command_text_size b' ')
              (drop command_text_size storage) (length-replicate {A = ℕ} command_text_size b' '),
    )
