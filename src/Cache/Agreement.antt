-- ===== src/Cache/Agreement.antt =====
-- A map of items and a function from keys to items that show the same live entries.
use waffle.Base.{
  ◌≡◌, refl, ap, ◌∙◌, Option, none, some, List, [], ◌∷◌, String, ℤ, ◌≤ℤ◌, if◌then◌else◌, Map,
  lookup, insert, erase, delete_if, unless, IsMap, lookup-insert, lookup-erase, lookup-delete_if,
  insert-IsMap, erase-IsMap, comparable_string, arith,
}
use waffle.Cache.{Bytes, Item, is_expired, new_item, collect, store_all, erase_all}
use waffle.Cache.Spec.{live, update, update_all, remove_all, collect_live}

-- From the time `t` on the map and the specification show the same live entries.
abbrev pub Agree : ℤ → Map String Item → (String → Option Item) → Type 0
Agree t items entries =
    (now : ℤ) (k : String) → t ≤ℤ now → live now (lookup k items) ≡ live now (entries k)

pub Agree-insert :
    (t : ℤ) (k : String) (it : Item) (items : Map String Item) (entries : String → Option Item)
    → Agree t items entries
    → Agree t (insert k it items) (update k (some it) entries)
Agree-insert t k it items entries h now j le =
    ground (arith, lookup-insert k j it items, h now j le)

pub Agree-erase :
    (t : ℤ) (k : String) (items : Map String Item) (entries : String → Option Item)
    → Agree t items entries
    → Agree t (erase k items) (update k none entries)
Agree-erase t k items entries h now j le = ground (arith, lookup-erase k j items, h now j le)

pub Agree-later :
    (t u : ℤ) (items : Map String Item) (entries : String → Option Item)
    → t ≤ℤ u
    → Agree t items entries
    → Agree u items entries
Agree-later t u items entries le h now k le' = h now k (omega arith)

-- An entry that has expired at `t` has expired at every later time.
live-unless :
    (t now : ℤ) (o : Option Item) → t ≤ℤ now → live now (unless (is_expired t) o) ≡ live now o
live-unless t now none le = refl
live-unless t now (some it) le = ground arith

pub Agree-remove_expired :
    (t : ℤ) (items : Map String Item) (entries : String → Option Item)
    → IsMap items
    → Agree t items entries
    → Agree t (delete_if (is_expired t) items) entries
Agree-remove_expired t items entries d h now k le =
    rw (lookup-delete_if (is_expired t) k items d)
      (live-unless t now (lookup k items) le ∙ h now k le)

pub Agree-erase_all :
    (t : ℤ) (ks : List String) (items : Map String Item) (entries : String → Option Item)
    → Agree t items entries
    → Agree t (erase_all ks items) (remove_all ks entries)
unfolding erase_all
Agree-erase_all t [] items entries h = h
Agree-erase_all t (k ∷ ks) items entries h =
    Agree-erase_all t ks (erase k items) (update k none entries) (Agree-erase t k items entries h)

pub Agree-store_all :
    (t : ℤ) (vs : Map String Bytes) (ttl : ℤ) (items : Map String Item)
    (entries : String → Option Item)
    → Agree t items entries
    → Agree t (store_all t vs ttl items) (update_all t vs ttl entries)
unfolding store_all
Agree-store_all t [] ttl items entries h = h
Agree-store_all t ((k, v) ∷ vs) ttl items entries h =
    Agree-store_all t vs ttl (insert k (new_item t v ttl) items)
      (update k (some (new_item t v ttl)) entries)
      (Agree-insert t k (new_item t v ttl) items entries h)

pub erase_all-IsMap :
    (ks : List String) (items : Map String Item) → IsMap items → IsMap (erase_all ks items)
unfolding erase_all
erase_all-IsMap [] items d = d
erase_all-IsMap (k ∷ ks) items d = erase_all-IsMap ks (erase k items) (erase-IsMap k items d)

pub store_all-IsMap :
    (t : ℤ) (vs : Map String Bytes) (ttl : ℤ) (items : Map String Item)
    → IsMap items
    → IsMap (store_all t vs ttl items)
unfolding store_all
store_all-IsMap t [] ttl items d = d
store_all-IsMap t ((k, v) ∷ vs) ttl items d =
    store_all-IsMap t vs ttl (insert k (new_item t v ttl) items)
      (insert-IsMap k (new_item t v ttl) items d)

found-live :
    (now : ℤ) (k : String) (o o' : Option Item) (result : Map String Bytes)
    → live now o ≡ live now o'
    → (elim o [
      | none ↦ result
      | some it ↦ if is_expired now it then result else insert k it.value result
    ])
      ≡ (elim (live now o') [ none ↦ result | some it ↦ insert k it.value result ])
found-live now k o o' result h = ground arith

pub collect-live :
    (now : ℤ) (ks : List String) (items : Map String Item) (entries : String → Option Item)
    (result : Map String Bytes)
    → Agree now items entries
    → collect now ks items result ≡ collect_live now ks entries result
unfolding collect
collect-live now [] items entries result h = refl
collect-live now (k ∷ ks) items entries result h =
    ap (collect now ks items)
      (found-live now k (lookup k items) (entries k) result (h now k (omega arith)))
    ∙ collect-live now ks items entries
        (elim (live now (entries k)) [ none ↦ result | some it ↦ insert k it.value result ]) h
