-- ===== src/Store.antt =====
-- crates/store/src/connections.rs: the list of saved connections and its file.
pub mod Secrets
pub mod Safe
mod Tests
use mshell.Prelude.{
  ℕ, Bool, true, false, not, Option, none, some, List, [], ◌∷◌, ◌==◌, if◌then◌else◌, length,
}
use mshell.Text.{Text}
use mshell.Store.Secrets.{Json, check_no_raw_password}

-- `Connection`: its `Uuid` as a number, the time it was last connected, and its other fields, which
-- no operation changes alone.
pub record Connection : Type 0 where
  pub id : ℕ
  pub last_connected : Option ℕ
  pub settings : Json

-- The crate serde_json; printing may fail.
pub record Serde : Type 0 where
  pub to_string_pretty : List Connection → Option Text
  pub from_str : Text → Option Json

pub data Error : Type 0 where
  json integrity io : Error

pub data Result (A : Type 0) : Type 0 where
  ok : A → Result A
  err : Error → Result A

-- The items in memory and the text of the file, if there is one.
pub record ConnectionStore : Type 0 where
  pub items : List Connection
  pub file : Option Text

unfoldable pub get : List Connection → ℕ → Option Connection
get [] id = none
get (c ∷ cs) id = let rest = get cs id in if c.id == id then some c else rest

-- The first with the identifier is replaced, or the new one is pushed.
unfoldable pub put : List Connection → Connection → List Connection
put [] conn = conn ∷ []
put (c ∷ cs) conn = let rest = put cs conn in if c.id == conn.id then conn ∷ cs else c ∷ rest

unfoldable pub put_all : List Connection → List Connection → List Connection
put_all cs [] = cs
put_all cs (conn ∷ conns) = put_all (put cs conn) conns

-- `retain(|c| c.id != id)`
unfoldable pub without : List Connection → ℕ → List Connection
without [] id = []
without (c ∷ cs) id = let rest = without cs id in if c.id == id then rest else c ∷ rest

module _ (serde : Serde) (writes : Bool) where
  -- `atomic_write`: the file is replaced, or stays if the file system does not let it.
  abbrev pub atomic_write : ConnectionStore → Text → ConnectionStore × Result Unit
  atomic_write s text = if writes then (record s { file = some text }, ok tt) else (s, err io)

  abbrev pub flush_text : ConnectionStore → Option Text → ConnectionStore × Result Unit
  flush_text s none = (s, err json)
  flush_text s (some text) =
      if check_no_raw_password (serde.from_str text)
      then atomic_write s text
      else (s, err integrity)

  unfoldable pub flush : ConnectionStore → ConnectionStore × Result Unit
  unfolding check_no_raw_password
  flush s = flush_text s (serde.to_string_pretty s.items)

  abbrev pub then_ok : {A : Type 0} → A → ConnectionStore × Result Unit → ConnectionStore × Result A
  then_ok a (s, ok u) = (s, ok a)
  then_ok a (s, err e) = (s, err e)

  unfoldable pub upsert : Connection → ConnectionStore → ConnectionStore × Result Unit
  unfolding put flush
  upsert conn s = flush (record s { items = put s.items conn })

  unfoldable pub delete : ℕ → ConnectionStore → ConnectionStore × Result Bool
  unfolding without flush
  delete id s =
      let kept = without s.items id in
      then_ok (not (length kept == length s.items)) (flush (record s { items = kept }))

  unfoldable pub upsert_many : List Connection → ConnectionStore → ConnectionStore × Result ℕ
  unfolding put_all flush
  upsert_many conns s = then_ok (length conns) (flush (record s { items = put_all s.items conns }))

  abbrev pub touch_found : ℕ → ConnectionStore → Option Connection → ConnectionStore × Result Bool
  touch_found now s none = (s, ok false)
  touch_found now s (some c) =
      then_ok true
        (flush (record s { items = put s.items (record c { last_connected = some now }) }))

  -- The connection that `find` gives is the one that `put` replaces.
  unfoldable pub touch_last_connected : ℕ → ℕ → ConnectionStore → ConnectionStore × Result Bool
  unfolding get put flush
  touch_last_connected id now s = touch_found now s (get s.items id)
