-- ===== src/Store/Safe.antt =====
-- The identifiers of saved connections and the fields of their file, over sequences of calls.
use mshell.Prelude.{
  ℕ, ◌≡◌, ◌≢◌, refl, sym, subst, ◌∙◌, Bool, true, Option, none, some, List, [], ◌∷◌, ◌==◌, if-cases,
  All, ==_iff,
}
use mshell.Text.{Text}
use mshell.Store.Secrets.{Json, check_no_raw_password, IsClean, check-IsClean}
use mshell.Store.{
  Connection, Serde, Result, ok, err, ConnectionStore, get, put, put_all, without, flush_text,
  flush, then_ok, upsert, delete, upsert_many, touch_found, touch_last_connected,
}

-- A call, with whether the file system lets it write.
pub data Call : Type 0 where
  upserts : (writes : Bool) (conn : Connection) → Call
  deletes : (writes : Bool) (id : ℕ) → Call
  upserts_many : (writes : Bool) (conns : List Connection) → Call
  touches : (writes : Bool) (id now : ℕ) → Call

abbrev pub apply : Serde → Call → ConnectionStore → ConnectionStore
apply serde (upserts writes conn) s = (upsert serde writes conn s).0
apply serde (deletes writes id) s = (delete serde writes id s).0
apply serde (upserts_many writes conns) s = (upsert_many serde writes conns s).0
apply serde (touches writes id now) s = (touch_last_connected serde writes id now s).0

unfoldable pub apply_all : Serde → List Call → ConnectionStore → ConnectionStore
apply_all serde [] s = s
apply_all serde (c ∷ calls) s = apply_all serde calls (apply serde c s)

abbrev pub IsDistinct : List Connection → Type 0
IsDistinct [] = Unit
IsDistinct (c ∷ cs) = All (λ d. d.id ≢ c.id) cs × IsDistinct cs

abbrev pub IsSafe : Serde → Option Text → Type 0
IsSafe serde none = Unit
IsSafe serde (some text) = (v : Json) → serde.from_str text ≡ some v → IsClean v

abbrev pub IsSound : Serde → ConnectionStore → Type 0
IsSound serde s = IsDistinct s.items × IsSafe serde s.file

put-All :
    (x : ℕ) (cs : List Connection) (c : Connection)
    → All (λ d. d.id ≢ x) cs
    → c.id ≢ x
    → All (λ d. d.id ≢ x) (put cs c)
unfolding put
put-All x [] c h n = (n, tt)
put-All x (d ∷ cs) c h n =
    if-cases (All (λ d. d.id ≢ x)) (d.id == c.id) (λ q. (n, h.1)) λ q. (h.0, put-All x cs c (h.1) n)

put-IsDistinct : (cs : List Connection) (c : Connection) → IsDistinct cs → IsDistinct (put cs c)
unfolding put
put-IsDistinct [] c h = (tt, tt)
put-IsDistinct (d ∷ cs) c (h, hs) =
    if-cases IsDistinct (d.id == c.id)
      (λ q. (subst (λ i. All (λ e. e.id ≢ i) cs) ((==_iff d.id c.id).0 q) h, hs))
      λ q. (put-All d.id cs c h (λ e. cc (q, (==_iff d.id c.id).1 (sym e))), put-IsDistinct cs c hs)

put_all-IsDistinct : (cs conns : List Connection) → IsDistinct cs → IsDistinct (put_all cs conns)
unfolding put_all
put_all-IsDistinct cs [] h = h
put_all-IsDistinct cs (c ∷ conns) h = put_all-IsDistinct (put cs c) conns (put-IsDistinct cs c h)

without-All :
    (x id : ℕ) (cs : List Connection) → All (λ d. d.id ≢ x) cs → All (λ d. d.id ≢ x) (without cs id)
unfolding without
without-All x id [] h = tt
without-All x id (d ∷ cs) h =
    if-cases (All (λ d. d.id ≢ x)) (d.id == id) (λ q. without-All x id cs (h.1))
      λ q. (h.0, without-All x id cs (h.1))

without-IsDistinct : (id : ℕ) (cs : List Connection) → IsDistinct cs → IsDistinct (without cs id)
unfolding without
without-IsDistinct id [] h = tt
without-IsDistinct id (d ∷ cs) (h, hs) =
    if-cases IsDistinct (d.id == id) (λ q. without-IsDistinct id cs hs)
      λ q. (without-All d.id id cs h, without-IsDistinct id cs hs)

module _ (serde : Serde) (writes : Bool) where
  abbrev LeavesSound : ConnectionStore × Result Unit → Type 0
  LeavesSound (s, r) = IsSound serde s

  checked-IsSafe :
      (text : Text) (o : Option Json)
      → serde.from_str text ≡ o
      → check_no_raw_password o ≡ true
      → IsSafe serde (some text)
  checked-IsSafe text none q h v e = cc
  checked-IsSafe text (some w) q h v e =
      check-IsClean v (subst (λ o. check_no_raw_password o ≡ true) (sym q ∙ e) h)

  text-IsSound :
      (s : ConnectionStore) (o : Option Text)
      → IsSound serde s
      → IsSound serde (flush_text serde writes s o).0
  text-IsSound s none h = h
  text-IsSound s (some text) h =
      if-cases LeavesSound (check_no_raw_password (serde.from_str text))
        (λ q. if-cases LeavesSound writes (λ w. (h.0, checked-IsSafe text _ refl q)) λ w. h) λ q. h

  flush-IsSound : (s : ConnectionStore) → IsSound serde s → IsSound serde (flush serde writes s).0
  unfolding flush
  flush-IsSound s h = text-IsSound s (serde.to_string_pretty s.items) h

  then_ok-IsSound :
      {A : Type 0} (a : A) (r : ConnectionStore × Result Unit)
      → IsSound serde r.0
      → IsSound serde (then_ok serde writes a r).0
  then_ok-IsSound a (s, ok u) h = h
  then_ok-IsSound a (s, err e) h = h

  touch-IsSound :
      (now : ℕ) (s : ConnectionStore) (o : Option Connection)
      → IsSound serde s
      → IsSound serde (touch_found serde writes now s o).0
  touch-IsSound now s none h = h
  touch-IsSound now s (some c) h =
      let touched = record c { last_connected = some now } in
      then_ok-IsSound true _ (
        flush-IsSound (record s { items = put s.items touched })
          (put-IsDistinct s.items touched (h.0), h.1))

apply-IsSound :
    (serde : Serde) (c : Call) (s : ConnectionStore)
    → IsSound serde s
    → IsSound serde (apply serde c s)
unfolding upsert delete upsert_many touch_last_connected
apply-IsSound serde (upserts writes conn) s h =
    flush-IsSound serde writes (record s { items = put s.items conn })
      (put-IsDistinct s.items conn (h.0), h.1)
apply-IsSound serde (deletes writes id) s h = then_ok-IsSound serde writes _ _ (
    flush-IsSound serde writes (record s { items = without s.items id })
      (without-IsDistinct id s.items (h.0), h.1))
apply-IsSound serde (upserts_many writes conns) s h = then_ok-IsSound serde writes _ _ (
    flush-IsSound serde writes (record s { items = put_all s.items conns })
      (put_all-IsDistinct s.items conns (h.0), h.1))
apply-IsSound serde (touches writes id now) s h =
    touch-IsSound serde writes now s (get s.items id) h

-- After any sequence of insertions, updates and deletions, whether their writes succeed or not, no
-- value that the file of connections parses to has a field named "password" at any depth, and no two
-- connections in memory have the same identifier, if so it was at the start.
pub apply_all-IsSound :
    (serde : Serde) (calls : List Call) (s : ConnectionStore)
    → IsSound serde s
    → IsSound serde (apply_all serde calls s)
unfolding apply_all
apply_all-IsSound serde [] s h = h
apply_all-IsSound serde (c ∷ calls) s h =
    apply_all-IsSound serde calls (apply serde c s) (apply-IsSound serde c s h)
