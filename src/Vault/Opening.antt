-- ===== src/Vault/Opening.antt =====
-- `Open` of core/vault/vault.go: the vault of an unlocked access key. The store is the configuration's.
use nft_soket.Base.{ℕ, ◌≡◌, [], arith}
use nft_soket.Base.Result.{Result, ok, err, ◌>>=◌}
use nft_soket.Base.Text.{Text, codes}
use nft_soket.Paperkey
use nft_soket.Paperkey.{Library, AccessKey, subkey}
use nft_soket.Vault.{Vault}

unfoldable pub open_vault : Library → AccessKey → Result Paperkey.Error Vault
open_vault lib ak = do
  enc_key ← subkey lib ak (codes "nftvault/chunk-enc") 32
  fp ← Paperkey.fingerprint lib ak
  ok (record { enc_key = enc_key; fingerprint = fp })

-- A key that is still locked gives no vault, no master key, no fingerprint and no subkey.
pub open_vault-locked :
    (lib : Library) (ak : AccessKey) (info : Text) (size : ℕ)
    → ak.seed ≡ []
    → (open_vault lib ak ≡ err Paperkey.locked)
      × (Paperkey.master_key lib ak ≡ err Paperkey.locked)
      × (Paperkey.fingerprint lib ak ≡ err Paperkey.locked)
      × (subkey lib ak info size ≡ err Paperkey.locked)
unfolding open_vault Paperkey.master_key Paperkey.fingerprint subkey
open_vault-locked lib ak info size e = ground (arith, e)
