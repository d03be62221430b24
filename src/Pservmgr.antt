-- ===== src/Pservmgr.antt =====
-- The channels that the node serves: PaychServingManagerImpl of pservmgr/pservmgr_impl.go, with its cache
-- of prices and its store of mdlstore/. A call looks at the cache under the read lock at `seen`; `others`
-- is what other calls did between the two transactions of Stop. Locks that fail, and transactions that
-- the datastore refuses, are not modelled.
mod Examples
pub mod Agree
pub mod Load
pub mod Loaded
use fcr.Base.{
  ◌>>=◌, ◌>>◌, String, ℕ, Bool, Result, Option, [], ◌∷◌, ok, fail_if, if◌then◌else◌, ◌&&◌, ◌||◌,
  none, some, not, panic, err, nat_key, text_key,
}
use fcr.Base.Int.{ℤ, pos, ltb_ℤ, eqb_ℤ}
use fcr.Base.Map.{Map, is_empty, lookup, insert, erase}
use fcr.Mdlstore.{Store, put, delete}
use fcr.Base.Nested.{Nested, has_channel, set_channel, peer_map, delete_channel, or_empty}

-- cachedServing: the price per period and the period.
abbrev pub CachedServing : Type 0
CachedServing = ℤ × ℤ

pub record PaychServingManager : Type 0 where
  pub cache : Nested CachedServing
  pub ds : Store

-- Both zero, or both positive.
unfoldable pub is_price : ℤ → ℤ → Bool
is_price ppp period =
    eqb_ℤ ppp (pos 0) && eqb_ℤ period (pos 0) || ltb_ℤ (pos 0) ppp && ltb_ℤ (pos 0) period

-- `delete(cache[cur], to_addr)`, which on a currency that is not there does nothing.
unfoldable pub delete_peer : ℕ → String → Nested CachedServing → Nested CachedServing
delete_peer cur to_addr m = elim (lookup cur m) [
  | none ↦ m
  | some peers ↦ insert cur (erase to_addr peers) m
]

-- `id_text` is the text of a currency id in a path; `encode` is json.Marshal of a price.
module _ (sep : String → Bool) (id_text : ℕ → String) where
  unfoldable pub serve :
      (ℤ → ℤ → Result String)
      → ℕ
      → String
      → String
      → ℤ
      → ℤ
      → PaychServingManager
      → PaychServingManager
      → Result PaychServingManager
  serve encode cur to_addr ch_addr ppp period seen m = do
    fail_if (not (is_price ppp period)) "ppp and period must be either both 0 or both positive"
    fail_if (has_channel cur to_addr ch_addr seen.cache) "already in serving"
    fail_if (has_channel cur to_addr ch_addr m.cache) "already in serving"
    val ← encode ppp period
    ds' ← put sep val (id_text cur ∷ to_addr ∷ ch_addr ∷ []) m.ds
    ok (record { cache = set_channel cur to_addr ch_addr (ppp, period) m.cache; ds = ds' })

  -- The second transaction of Stop, where the recipient has no serving: the cache is cleaned whatever
  -- becomes of the store.
  unfoldable pub clean_recipient : ℕ → String → PaychServingManager → PaychServingManager
  clean_recipient cur to_addr m =
      if is_empty (peer_map cur to_addr m.cache)
      then record {
        cache = delete_peer cur to_addr m.cache;
        ds = elim (delete sep (id_text cur ∷ to_addr ∷ []) m.ds) [
          | panic ↦ m.ds
          | err e ↦ m.ds
          | ok ds' ↦ ds'
        ];
      }
      else m

  -- The first transaction of Stop.
  unfoldable pub remove_serving :
      ℕ → String → String → PaychServingManager → PaychServingManager → Result PaychServingManager
  remove_serving cur to_addr ch_addr seen m = do
    fail_if (not (has_channel cur to_addr ch_addr seen.cache)) "not in serving"
    fail_if (not (has_channel cur to_addr ch_addr m.cache)) "not in serving"
    ds' ← delete sep (id_text cur ∷ to_addr ∷ ch_addr ∷ []) m.ds
    ok (record { cache = delete_channel cur to_addr ch_addr m.cache; ds = ds' })

  unfoldable pub stop :
      ℕ
      → String
      → String
      → PaychServingManager
      → (PaychServingManager → PaychServingManager)
      → PaychServingManager
      → Result PaychServingManager
  stop cur to_addr ch_addr seen others m = do
    m' ← remove_serving cur to_addr ch_addr seen m
    ok (
        if is_empty (peer_map cur to_addr m'.cache)
        then clean_recipient cur to_addr (others m')
        else m')

-- Whether a channel is served, and at what price.
unfoldable pub inspect : ℕ → String → String → PaychServingManager → Option CachedServing
inspect cur to_addr ch_addr m = elim (lookup cur m.cache) [
  | none ↦ none
  | some peers ↦ elim (lookup to_addr peers) [
    | none ↦ none
    | some channels ↦ lookup ch_addr channels
  ]
]

-- The recipients of a currency and the channels of a recipient, in some order.
abbrev list_recipients : ℕ → PaychServingManager → Map String (Map String CachedServing)
list_recipients cur m = or_empty (lookup cur m.cache)

abbrev list_servings : ℕ → String → PaychServingManager → Map String CachedServing
list_servings cur to_addr m = peer_map cur to_addr m.cache
