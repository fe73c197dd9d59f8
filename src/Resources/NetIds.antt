-- ===== src/Resources/NetIds.antt =====
-- `NetIdState`, which numbers names: BasisRustServer/crates/basis-server-resources/src/lib.rs.
use basis_rust_server.Common.{
  ℕ, ◌+◌, ◌%◌, ◌^◌, ◌<◌, ◌≡◌, sym, ◌∙◌, List, [], none, some, arith, Option-cases, inl, inr,
}
use basis_rust_server.Common.Maps.{
  Map, lookup, insert, text_key, lookup-insert, lookup-insert_self, insert-cases,
}
use basis_rust_server.Common.Words.{Bytes}

pub record NetIdState : Type 0 where
  pub by_name : Map Bytes ℕ
  pub next_id : ℕ

-- The second look under the write lock sees what the first one saw.
unfoldable pub add_or_find : Bytes → NetIdState → ℕ × NetIdState
add_or_find name state = elim (lookup name state.by_name) [
  | some id ↦ (id, state)
  | none ↦ (
    state.next_id,
    record {
      by_name = insert name state.next_id state.by_name;
      next_id = (state.next_id + 1) % 2 ^ 16;
    },
  )
]

unfoldable pub all : NetIdState → List (Bytes × ℕ)
all state = state.by_name

unfoldable pub reset : NetIdState → NetIdState
reset state = record { by_name = []; next_id = 0 }

-- Every number is below the next one, and no two names have one number.
pub record IsNumbered (state : NetIdState) : Type 0 where
  pub below : (name : Bytes) (id : ℕ) → lookup name state.by_name ≡ some id → id < state.next_id
  pub apart :
      (name other : Bytes) (id : ℕ)
      → lookup name state.by_name ≡ some id
      → lookup other state.by_name ≡ some id
      → name ≡ other

add_or_find-known :
    (name : Bytes) (id : ℕ) (state : NetIdState)
    → lookup name state.by_name ≡ some id
    → add_or_find name state ≡ (id, state)
unfolding add_or_find
add_or_find-known name id state e = rw (add_or_find, e)

abbrev numbered : Bytes → NetIdState → NetIdState
numbered name state = record {
  by_name = insert name state.next_id state.by_name;
  next_id = (state.next_id + 1) % 2 ^ 16;
}

add_or_find-new :
    (name : Bytes) (state : NetIdState)
    → lookup name state.by_name ≡ none
    → add_or_find name state ≡ (state.next_id, numbered name state)
unfolding add_or_find
add_or_find-new name state e = rw (add_or_find, e)

numbered-IsNumbered :
    (name : Bytes) (state : NetIdState)
    → state.next_id < 65535
    → IsNumbered state
    → IsNumbered (numbered name state)
numbered-IsNumbered name state small h = record {
  below = λ other id f. elim (insert-cases name other state.next_id id state.by_name f) [
    | inl (same, new) ↦ omega arith
    | inr (ne, old) ↦ omega (arith, h.below other id old)
  ];
  apart = λ one two id f g. elim (insert-cases name one state.next_id id state.by_name f) [
    | inl (same, new) ↦ elim (insert-cases name two state.next_id id state.by_name g) [
      | inl (same2, _) ↦ sym same ∙ same2
      | inr (_, old) ↦ absurd (omega (arith, h.below two id old))
    ]
    | inr (ne, old) ↦ elim (insert-cases name two state.next_id id state.by_name g) [
      | inl (_, new) ↦ absurd (omega (arith, h.below one id old))
      | inr (_, old2) ↦ h.apart one two id old old2
    ]
  ];
}

-- As long as the numbers have not run out, a name gets a number that no other name has, keeps it, and
-- no other name changes its number.
pub add_or_find_lem :
    (name : Bytes) (state : NetIdState)
    → state.next_id < 65535
    → IsNumbered state
    → let (id, after) = add_or_find name state in
      IsNumbered after
      × (lookup name after.by_name ≡ some id)
      × (add_or_find name after ≡ (id, after))
      × ((other : Bytes) (k : ℕ)
          → lookup other state.by_name ≡ some k
          → lookup other after.by_name ≡ some k)
add_or_find_lem name state small h = elim (Option-cases (lookup name state.by_name)) [
  | inr (id, e) ↦
      let found = add_or_find-known name id state e in rw found (h, e, found, λ other k f. f)
  | inl e ↦
      let n = state.next_id in
      let after = numbered name state in
      let here = lookup-insert_self name n state.by_name in
      rw (add_or_find-new name state e) (
        numbered-IsNumbered name state small h,
        here,
        add_or_find-known name n after here,
        λ other k f. ground (arith, lookup-insert name other n state.by_name, e, f),
      )
]
