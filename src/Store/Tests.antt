-- ===== src/Store/Tests.antt =====
-- A connection whose settings hold a password does not reach the file.
use mshell.Prelude.{if◌then◌else◌, ◌==◌, ◌≡◌, ℕ, refl, true, false, none, some, List, [], ◌∷◌}
use mshell.Text.{Text}
use mshell.Prelude.{bytes_eq}
use mshell.Store.Secrets.{
  Json, scalar, array, object, item, no_items, field, no_fields, password, walk_no_raw_password,
}
use mshell.Store.{Connection, Serde, ConnectionStore, err, ok, integrity, upsert, delete}
use mshell.Store.Safe.{upserts, deletes, touches, apply_all, IsSound, apply_all-IsSound}

abbrev value_of_text : Text → Json
value_of_text [] = scalar
value_of_text (c ∷ cs) = array (item (object (field password scalar no_fields)) no_items)

-- The text of a list is empty unless its first connection has the number 9.
abbrev text_of : List Connection → Text
text_of [] = []
text_of (c ∷ cs) = if c.id == 9 then 1 ∷ [] else []

abbrev serde : Serde
serde = record {
  to_string_pretty = λ cs. some (text_of cs);
  from_str = λ t. some (value_of_text t);
}

abbrev connection : ℕ → Connection
connection n = record { id = n; last_connected = none; settings = scalar }

abbrev new_store : ConnectionStore
new_store = record { items = []; file = none }

refuses_password :
    upsert serde true (connection 9) new_store
    ≡ (record { items = connection 9 ∷ []; file = none }, err integrity)
unfolding upsert walk_no_raw_password bytes_eq
refuses_password = refl

deletes_one :
    delete serde true 1 (record new_store { items = connection 1 ∷ connection 2 ∷ [] })
    ≡ (record { items = connection 2 ∷ []; file = some [] }, ok true)
unfolding delete walk_no_raw_password
deletes_one = refl

apply_all-IsSound_example : IsSound serde (
    apply_all serde
      (upserts true (connection 1) ∷ touches true 1 5 ∷ deletes false 1 ∷ [])
      new_store)
apply_all-IsSound_example =
    apply_all-IsSound serde (upserts true (connection 1) ∷ touches true 1 5 ∷ deletes false 1 ∷ [])
      new_store (tt, tt)
