-- ===== src/Pservmgr/Load.antt =====
-- The start of NewPaychServingManagerImpl of pservmgr/pservmgr_impl.go, which fills the cache from the store
-- in one transaction. The maps of children are read in the order in which the model keeps them. Opening the
-- datastore is left out.
use fcr.Base.{
  ◌>>=◌, String, ℕ, Bool, Result, [], ◌%◌, ◌^◌, ◌-◌, ◌∷◌, ok, if◌then◌else◌, nat_key, text_key,
}
use fcr.Base.Int.{ℤ, pos, negsuc}
use fcr.Base.Map.{Map, is_empty, insert}
use fcr.Base.Nested.{Nested, set_peer, set_channel}
use fcr.Mdlstore.{Store, get_children, get, delete}
use fcr.Pservmgr.{CachedServing, PaychServingManager, delete_peer}

-- `byte(currency)`, which wraps around.
abbrev pub to_byte : ℤ → ℕ
to_byte (pos n) = n % 2 ^ 8
to_byte (negsuc n) = 255 - n % 2 ^ 8

-- `atoi` is strconv.Atoi and `decode` is decDSVal.
module _ (sep : String → Bool) (id_text : ℕ → String) (atoi : String → Result ℤ)
    (decode : String → Result CachedServing) where
  unfoldable pub load_servings :
      ℕ → String → Map String Bool → Store → Nested CachedServing → Result (Nested CachedServing)
  load_servings cur to_addr [] s cache = ok cache
  load_servings cur to_addr ((ch_addr, b) ∷ names) s cache = do
    val ← get sep (id_text cur ∷ to_addr ∷ ch_addr ∷ []) s
    price ← decode val
    load_servings cur to_addr names s (set_channel cur to_addr ch_addr price cache)

  -- A recipient without a serving goes from the store and stays out of the cache.
  unfoldable pub load_recipient : ℕ → String → PaychServingManager → Result PaychServingManager
  load_recipient cur to_addr m = do
    let entered = set_peer cur to_addr [] m.cache
    channels ← get_children sep (id_text cur ∷ to_addr ∷ []) m.ds
    (if is_empty channels
        then (do
          ds' ← delete sep (id_text cur ∷ to_addr ∷ []) m.ds
          ok (record { cache = delete_peer cur to_addr entered; ds = ds' }))
        else (do
          cache' ← load_servings cur to_addr channels m.ds entered
          ok (record { cache = cache'; ds = m.ds })))

  unfoldable pub load_recipients :
      ℕ → Map String Bool → PaychServingManager → Result PaychServingManager
  load_recipients cur [] m = ok m
  load_recipients cur ((to_addr, b) ∷ names) m = do
    m' ← load_recipient cur to_addr m
    load_recipients cur names m'

  unfoldable pub load_currencies :
      Map String Bool → PaychServingManager → Result PaychServingManager
  load_currencies [] m = ok m
  load_currencies ((text, b) ∷ names) m = do
    currency ← atoi text
    let cur = to_byte currency
    recipients ← get_children sep (id_text cur ∷ []) m.ds
    m' ← load_recipients cur recipients (record { cache = insert cur [] m.cache; ds = m.ds })
    load_currencies names m'

  unfoldable pub load : Store → Result PaychServingManager
  load s = do
    currencies ← get_children sep [] s
    load_currencies currencies (record { cache = []; ds = s })
