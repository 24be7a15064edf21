-- ===== src/Ws/Config/Lists.antt =====
-- The list of configurations (pkg/store/ws_config.go) behind an addition and a removal.
use ts_store.Prelude.{
  ◌≡◌, ◌≢◌, refl, ap, ◌∙◌, Bool, true, false, ◌||◌, Option, none, some, List, [], ◌∷◌, ◌++◌, arith,
  if◌then◌else◌, Bool-cases, inl, inr,
}
use mathlib.Core.Path.{subst}
use ts_store.Prelude.Equality.{Bytes, ◌=?◌, bytes_eq}
use ts_store.Ws.Config.{WsConnection, find_connection, without_connection}

abbrev pub is_some : {A : Type 0} → Option A → Bool
is_some none = false
is_some (some a) = true

-- Every ID stands once.
abbrev pub DistinctIds : List WsConnection → Type 0
DistinctIds [] = Unit
DistinctIds (c ∷ cs) = (find_connection c.id cs ≡ none) × DistinctIds cs

pub find_connection-append :
    (id : Bytes) (cs : List WsConnection) (c : WsConnection)
    → is_some (find_connection id (cs ++ (c ∷ [])))
      ≡ (is_some (find_connection id cs) || c.id =? id)
unfolding find_connection
find_connection-append id [] c = ground arith
find_connection-append id (d ∷ cs) c = ground (arith, find_connection-append id cs c)

pub none_of : {A : Type 0} (o : Option A) → is_some o ≡ false → o ≡ none
none_of none e = refl
none_of (some a) e = cc

pub some_of : {A : Type 0} (o : Option A) → is_some o ≡ true → o ≢ none
some_of none e = λ _. cc
some_of (some a) e = λ h. cc

apart :
    (i j : Bytes) (e : WsConnection) (r : Option WsConnection)
    → (if i =? j then some e else r) ≡ none
    → (i ≢ j) × (r ≡ none)
apart i j e r h = ground (arith, h)

pub DistinctIds-append :
    (cs : List WsConnection) (c : WsConnection)
    → DistinctIds cs
    → find_connection c.id cs ≡ none
    → DistinctIds (cs ++ (c ∷ []))
unfolding find_connection
DistinctIds-append [] c d fresh = (refl, tt)
DistinctIds-append (e ∷ cs) c d fresh =
    let (ne, rest) = apart (e.id) c.id e (find_connection c.id cs) fresh in
    (
      none_of (find_connection e.id (cs ++ (c ∷ [])))
          (find_connection-append e.id cs c ∙ ground (arith, d.0, ne)),
      DistinctIds-append cs c d.1 rest,
    )

-- What a removal leaves.
pub record Removed (id : Bytes) (cs rest : List WsConnection) : Type 0 where
  pub runs : without_connection id cs ≡ some rest
  pub found :
      (j : Bytes)
      → is_some (find_connection j rest)
        ≡ (if j =? id then false else is_some (find_connection j cs))
  pub distinct : DistinctIds rest

removed_head :
    (i id j : Bytes) (c : WsConnection) (o : Option WsConnection)
    → (i =? id) ≡ true
    → (i ≡ j → o ≡ none)
    → is_some o ≡ (if j =? id then false else is_some (if i =? j then some c else o))
removed_head i id j c o same gone = elim (Bool-cases (i =? j)) [
  | inl e ↦ ground (arith, same, e, ap is_some (gone (ground (arith, e))))
  | inr n ↦ ground (arith, same, n)
]

removed_tail :
    (i id j : Bytes) (c : WsConnection) (o o' : Option WsConnection)
    → (i =? id) ≡ false
    → is_some o' ≡ (if j =? id then false else is_some o)
    → is_some (if i =? j then some c else o')
      ≡ (if j =? id then false else is_some (if i =? j then some c else o))
removed_tail i id j c o o' differ e = ground (arith, differ, e)

pub without_connection-Removed :
    (id : Bytes) (cs : List WsConnection)
    → DistinctIds cs
    → find_connection id cs ≢ none
    → (rest : List WsConnection) × Removed id cs rest
unfolding find_connection without_connection
without_connection-Removed id [] d found = absurd (found refl)
without_connection-Removed id (c ∷ cs) d found = elim (Bool-cases (c.id =? id)) [
  | inl same ↦ (
    cs,
    record {
      runs = rw same refl;
      found = λ j.
          removed_head c.id id j c (find_connection j cs) same
            (λ e. subst (λ x. find_connection x cs ≡ none) e d.0);
      distinct = d.1;
    },
  )
  | inr differ ↦
      let (rest, r) = without_connection-Removed id cs d.1 (rw differ at found) in
      (
        c ∷ rest,
        record {
          runs = rw (differ, r.runs) refl;
          found = λ j.
              removed_tail c.id id j c (find_connection j cs) (find_connection j rest) differ
                (r.found j);
          distinct = (
            none_of (find_connection c.id rest) (r.found c.id ∙ rw differ (ap is_some d.0)),
            r.distinct,
          );
        },
      )
]
