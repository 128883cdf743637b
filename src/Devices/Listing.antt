-- ===== src/Devices/Listing.antt =====
-- The lists of backend/routes/devices.py: devices, groups and numbers, with their pages, and the
-- filter of backend/main.py that they share.

pub mod Pages
use Prim.Native.Char.{code}
use Prim.Native.String.{[], ◌∷◌}
use lvyou_smsweb.Prelude.{
  [], ◌∷◌, List, ℕ, strip, Option, String, some, if◌then◌else◌, filter, ◌++◌, or_text, take, Bool,
  ◌||◌, ◌==◌, is_empty, true, drop, false, ◌+◌, text_comparable, ltb, ◌&&◌, ◌-◌, not, none,
  like_infix, length, count, ◌/◌, ◌*◌, number_comparable, map,
}
use lvyou_smsweb.World.{Env, Exec, ◌>>=◌, transact, pure}
use lvyou_smsweb.Db.{Device}
use lvyou_smsweb.DeviceTable.{device_to_dict, DeviceDict, same_value}
use lvyou_smsweb.Client.Patterns.{is_in}

abbrev pub is_lower : String → String → Bool
is_lower s [] = false
is_lower [] (d ∷ t) = true
is_lower (c ∷ s) (d ∷ t) = ltb (code c) (code d) || (code c == code d && is_lower s t)

-- An order of values that may be NULL: SQLite puts NULL first.
abbrev pub is_lower_value : Option String → Option String → Bool
is_lower_value (some s) (some t) = is_lower s t
is_lower_value none (some t) = true
is_lower_value _ none = false

-- `a` stands before `b`: `ORDER BY created DESC, id DESC`
abbrev pub is_newer : Device → Device → Bool
is_newer a b =
    is_lower_value b.created a.created
    || (not (is_lower_value a.created b.created) && ltb b.id a.id)

abbrev pub insert_newest : Device → List Device → List Device
insert_newest d [] = d ∷ []
insert_newest d (e ∷ es) =
    let rest = insert_newest d es in if is_newer e d then e ∷ rest else d ∷ e ∷ es

unfoldable pub newest_first : List Device → List Device
newest_first [] = []
newest_first (d ∷ ds) = insert_newest d (newest_first ds)

-- `column ILIKE '%' || escaped || '%'`: after the escape the text stands for itself.
abbrev pub value_has : String → Option String → Bool
value_has q none = false
value_has q (some s) = like_infix s q

-- One page of a list, `offset((page - 1) * page_size).limit(page_size)`.
unfoldable pub page_of : {A : Type 0} → ℕ → ℕ → List A → List A
page_of page page_size xs = take page_size (drop ((page - 1) * page_size) xs)

-- `(total + page_size - 1) // page_size if total else 0`
unfoldable pub pages_of : ℕ → ℕ → ℕ
pages_of total page_size = if total == 0 then 0 else (total + page_size - 1) / page_size

pub record DevicePage : Type 0 where
  pub items : List DeviceDict
  pub total : ℕ
  pub online_count : ℕ
  pub offline_count : ℕ
  pub page : ℕ
  pub page_size : ℕ
  pub pages : ℕ

pub record Number : Type 0 where
  pub device_id : ℕ
  pub device_name : String
  pub ip : String
  pub grp : String
  pub number : String
  pub operator : String
  pub slot : ℕ

pub record NumberPage : Type 0 where
  pub items : List Number
  pub total : ℕ
  pub page : ℕ
  pub page_size : ℕ
  pub pages : ℕ

abbrev pub is_online : Device → Bool
is_online d = same_value d.status (some "online")

-- A group that is asked for, unless it is empty or "all".
unfoldable pub in_group : String → Device → Bool
unfolding strip
in_group group d =
    let gval = strip group in is_empty gval || gval == "all" || same_value d.grp (some gval)

-- The number of one slot, if it is not blank.
unfoldable pub slot_number : Device → Option String → Option String → ℕ → List Number
unfolding strip
slot_number d none op slot = []
slot_number d (some num) op slot =
    if is_empty (strip num)
    then []
    else record {
      device_id = d.id;
      device_name = or_text d.dev_id d.ip;
      ip = d.ip;
      grp = or_text d.grp "";
      number = strip num;
      operator = or_text op "";
      slot = slot;
    }
      ∷ []

unfoldable pub numbers_of : List Device → List Number
unfolding slot_number
numbers_of [] = []
numbers_of (d ∷ ds) =
    slot_number d d.sim1number d.sim1operator 1
    ++ (slot_number d d.sim2number d.sim2operator 2 ++ numbers_of ds)

abbrev pub add_group : String → List String → List String
add_group g [] = g ∷ []
add_group g (h ∷ hs) =
    let rest = add_group g hs in
    if g == h then h ∷ hs else if is_lower g h then g ∷ h ∷ hs else h ∷ rest

-- `sorted({…})` of the groups that are not empty.
unfoldable pub groups_of : List Device → List String
groups_of [] = []
groups_of (d ∷ ds) =
    let rest = groups_of ds in
    let g = or_text d.grp "" in if is_empty g then rest else add_group g rest

module _ (env : Env) where
  -- `_apply_devices_filter`, whose pattern has the text escaped by `_escape_like`.
  unfoldable pub apply_devices_filter : String → String → Device → Bool
  unfolding strip in_group
  apply_devices_filter q group d =
      let qval = env.lower (strip q) in
      (is_empty qval
        || value_has qval (some d.ip)
        || value_has qval d.mac
        || value_has qval d.dev_id
        || value_has qval d.alias
        || value_has qval d.sim1number
        || value_has qval d.sim2number
        || value_has qval d.sim1operator
        || value_has qval d.sim2operator)
      && in_group group d

  unfoldable pub listed_devices : String → String → List Device → List Device
  unfolding apply_devices_filter newest_first
  listed_devices q group rows = filter (apply_devices_filter q group) (newest_first rows)

  -- Three queries: the count, the count of those online, and the page.
  unfoldable pub apidevices : ℕ → ℕ → String → String → Exec DevicePage
  unfolding listed_devices page_of pages_of device_to_dict
  apidevices page page_size q group = do
    total ← transact env (λ db. (db, length (listed_devices q group db.devices)))
    online ← transact env (λ db. (db, count is_online (listed_devices q group db.devices)))
    items ← transact env (λ db. (db, page_of page page_size (listed_devices q group db.devices)))
    pure (record {
      items = map device_to_dict items;
      total = total;
      online_count = online;
      offline_count = total - online;
      page = page;
      page_size = page_size;
      pages = pages_of total page_size;
    })

  unfoldable pub apidevicesgroups : Exec (List String)
  unfolding groups_of
  apidevicesgroups = transact env (λ db. (db, groups_of db.devices))

  unfoldable pub getallnumbers : String → Exec (List Number)
  unfolding numbers_of in_group
  getallnumbers group = transact env (λ db. (db, numbers_of (filter (in_group group) db.devices)))

  abbrev pub number_has : String → Number → Bool
  number_has qval n =
      is_in qval (env.lower n.number)
      || is_in qval (env.lower n.operator)
      || is_in qval (env.lower n.device_name)

  unfoldable pub apinumbers : ℕ → ℕ → String → String → Exec NumberPage
  unfolding getallnumbers page_of pages_of strip
  apinumbers page page_size q group = do
    all_nums ← getallnumbers group
    let qval = env.lower (strip q)
    let nums = if is_empty qval then all_nums else filter (number_has qval) all_nums
    pure (record {
      items = page_of page page_size nums;
      total = length nums;
      page = page;
      page_size = page_size;
      pages = pages_of (length nums) page_size;
    })
