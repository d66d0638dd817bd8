-- ===== src/Storage/Unseal/Chain.antt =====
-- The writes of `storage_unseal_file` in src/enclave/storage/Storage.cpp, one after the other.
use crust_sworker.Prelude.{
  ℕ, ◌==◌, ◌≡◌, ◌≢◌, inl, inr, refl, ap, ◌∙◌, Bool-cases, Option-cases, true, false, List, Option,
  none, some, arith, ltb, if◌then◌else◌,
}
use crust_sworker.Prelude.Text.{Text}
use crust_sworker.Status.{CrustStatus, crust_success}
use crust_sworker.Crypto.{Crypto}
use crust_sworker.Storage.Seal.{Files}
use crust_sworker.Storage.Unseal.{
  Unsealing, private_tag, join_path, plain_path, Round, round_end, replace_plain, unseal_data,
  unseal_read, unseal_one,
}
use crust_sworker.Validator.Meaningful.Block.{starts_with}

fails : (status : CrustStatus) → (status == crust_success) ≡ false → status ≢ crust_success
fails status e h = ground arith

pub succeeds : (status : CrustStatus) → (status == crust_success) ≡ true → status ≡ crust_success
succeeds status e = ground arith

module _ (c : Crypto) (F : Files) (U : Unsealing) (dir : Text) where
  -- The write of one file, with its status: what was read at the path, unsealed, is not private, and
  -- goes to the path with the hash of its own.
  pub record Writes (path : Text) (s t : F.State) (status : CrustStatus) : Type 0 where
    pub sealed : List ℕ
    pub plain : List ℕ
    pub read : F.get_storage_file (join_path dir path) s ≡ (crust_success, some sealed)
    pub unsealed : U.unseal sealed ≡ some plain
    pub not_private : starts_with private_tag plain ≡ false
    pub written :
        F.replace_file (join_path dir path) (plain_path c dir path plain) plain s ≡ (status, t)

  -- What a round of the loop comes to.
  pub data One (path : Text) (s : F.State) (r : Round c F U) : Type 0 where
    wrote :
        r.goes_on ≡ true
        → r.status ≡ crust_success
        → Writes path s r.files crust_success
        → One path s r
    kept : r.goes_on ≡ false → r.status ≢ crust_success → r.files ≡ s → One path s r
    broke :
        (status : CrustStatus)
        → r.goes_on ≡ false
        → r.status ≢ crust_success
        → Writes path s r.files status
        → status ≢ crust_success
        → One path s r

  replace_plain-One :
      (path : Text) (sealed plain : List ℕ) (s : F.State) (len : ℕ)
      → F.get_storage_file (join_path dir path) s ≡ (crust_success, some sealed)
      → U.unseal sealed ≡ some plain
      → One path s (replace_plain c F U dir path plain s len)
  unfolding replace_plain round_end
  replace_plain-One path sealed plain s len read un =
      let w = F.replace_file (join_path dir path) (plain_path c dir path plain) plain s in
      elim (Bool-cases (starts_with private_tag plain)) [
        | inl p ↦ rw p (kept refl (λ e. ground arith) refl)
        | inr p ↦ elim (Bool-cases (w.0 == crust_success)) [
          | inl q ↦
              let e = succeeds w.0 q in
              rw (p, q)
                (wrote refl e (record {
                  sealed = sealed;
                  plain = plain;
                  read = read;
                  unsealed = un;
                  not_private = p;
                  written = ap (λ x. (x, w.1)) e;
                }))
          | inr q ↦
              rw (p, q)
                (broke w.0 refl (λ e. ground arith)
                  (record {
                    sealed = sealed;
                    plain = plain;
                    read = read;
                    unsealed = un;
                    not_private = p;
                    written = refl;
                  })
                  (fails w.0 q))
        ]
      ]

  unseal_data-One :
      (path : Text) (sealed : List ℕ) (s : F.State) (len : ℕ)
      → F.get_storage_file (join_path dir path) s ≡ (crust_success, some sealed)
      → One path s (unseal_data c F U dir path sealed s len)
  unfolding unseal_data round_end
  unseal_data-One path sealed s len read =
      let len_r = U.encrypt_txt_len sealed in
      elim (Bool-cases (U.malloc sealed)) [
        | inr p ↦ rw p (kept refl (λ e. ground arith) refl)
        | inl p ↦ elim (Bool-cases (if ltb len len_r then U.realloc len_r else true)) [
          | inr q ↦ rw (p, q) (kept refl (λ e. ground arith) refl)
          | inl q ↦ elim (Option-cases (U.unseal sealed)) [
            | inl e ↦ rw (p, q, e) (kept refl (λ e. ground arith) refl)
            | inr (plain, e) ↦
                rw (p, q, e)
                  (replace_plain-One path sealed plain s (if ltb len len_r then len_r else len) read
                    e)
          ]
        ]
      ]

  -- A file that is read with success has data.
  unfoldable pub HasData : Type 0
  HasData =
      (p : Text) (t : F.State)
      → (F.get_storage_file p t).0 ≡ crust_success
      → (F.get_storage_file p t).1 ≢ none

  pub unseal_one-One :
      HasData → (path : Text) (s : F.State) (len : ℕ) → One path s (unseal_one c F U dir path s len)
  unfolding unseal_one HasData unseal_read round_end
  unseal_one-One has path s len = go (F.get_storage_file (join_path dir path) s) refl
    where
      go :
          (o : CrustStatus × Option (List ℕ))
          → F.get_storage_file (join_path dir path) s ≡ o
          → One path s (unseal_read c F U dir path o s len)
      go (status, none) e =
          kept refl (λ k. has (join_path dir path) s (ap (λ o. o.0) e ∙ k) (ap (λ o. o.1) e)) refl
      go (status, some sealed) e = elim (Bool-cases (status == crust_success)) [
        | inr q ↦ rw q (kept refl (fails status q) refl)
        | inl q ↦
            rw q (
              unseal_data-One path sealed s len
                (e ∙ ap (λ x. (x, some sealed)) (succeeds status q)))
      ]
