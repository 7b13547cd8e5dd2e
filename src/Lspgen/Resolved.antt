-- ===== src/Lspgen/Resolved.antt =====
-- `typeForName` of lspgen/lspgen.cpp finds the declaration of every name that `extract` has taken.
use mathlib.Core.Option.{map}
use mathlib.Core.Path.{subst}
use lsp_framework.Base.{
  ℕ, zero, suc, ◌≡◌, refl, some, List, [], ◌∷◌, ◌++◌, Bytes, All, length, get_elem?, ok, err, ◌>>=◌,
  Bool-cases, inl, inr, ok_injective,
}
use lsp_framework.Exceptions.{Throws}
use lsp_framework.Json.Value.{Items, Fields, nil, cons, as_object}
use lsp_framework.Lspgen.Declarations.{Enumeration, Structure, TypeAlias}
use lsp_framework.Lspgen.MetaModel.{
  Sort, enumeration_sort, structure_sort, alias_sort, TypeIndex, MetaModel, has_key, Declaration,
  enumeration, structure, alias, declaration_at, insert_type, each_object, add_enumeration,
  add_structure, add_alias,
}

-- A value that the computation returns satisfies `P`.
abbrev pub Gives : {A : Type 0} → (A → Type 0) → Throws A → Type 0
Gives P (ok a) = P a
Gives P (err e) = Unit

pub Gives-bind :
    {A B : Type 0} (P : A → Type 0) (Q : B → Type 0) (m : Throws A) (f : A → Throws B)
    → Gives P m
    → ((a : A) → P a → Gives Q (f a))
    → Gives Q (m >>= f)
Gives-bind P Q (ok a) f h k = k a h
Gives-bind P Q (err e) f h k = tt

pub Gives-any :
    {A B : Type 0} (Q : B → Type 0) (m : Throws A) (f : A → Throws B)
    → ((a : A) → Gives Q (f a))
    → Gives Q (m >>= f)
Gives-any Q (ok a) f k = k a
Gives-any Q (err e) f k = tt

pub Gives-ok : {A : Type 0} (P : A → Type 0) (m : Throws A) (a : A) → m ≡ ok a → Gives P m → P a
Gives-ok P (ok b) a e h = subst P (ok_injective e) h
Gives-ok P (err x) a e h = absurd cc

All-append :
    {A : Type 0} (P : A → Type 0) (l : List A) (a : A) → All P l → P a → All P (l ++ a ∷ [])
All-append P [] a h p = (p, tt)
All-append P (b ∷ l) a (hb, h) p = (hb, All-append P l a h p)

All-mono : {A : Type 0} (P Q : A → Type 0) (l : List A) → ((a : A) → P a → Q a) → All P l → All Q l
All-mono P Q [] k h = tt
All-mono P Q (a ∷ l) k (ha, h) = (k a ha, All-mono P Q l k h)

-- What stands at an index stays there when the list grows.
map-get_elem?-append :
    {A B : Type 0} (f : A → B) (xs ys : List A) (i : ℕ) (b : B)
    → map f (get_elem? xs i) ≡ some b
    → map f (get_elem? (xs ++ ys) i) ≡ some b
map-get_elem?-append f [] ys i b h = cc
map-get_elem?-append f (x ∷ xs) ys zero b h = h
map-get_elem?-append f (x ∷ xs) ys (suc i) b h = map-get_elem?-append f xs ys i b h

get_elem?-length :
    {A : Type 0} (xs : List A) (a : A) → get_elem? (xs ++ a ∷ []) (length xs) ≡ some a
get_elem?-length [] a = refl
get_elem?-length (x ∷ xs) a = get_elem?-length xs a

module _ {D : Type 0} where
  abbrev pub name_of : Declaration D → Bytes
  name_of (enumeration e) = e.name
  name_of (structure s) = s.name
  name_of (alias a) = a.name

  -- At the index stands a declaration of that name.
  abbrev pub IsNamed : MetaModel D → Bytes → TypeIndex → Type 0
  IsNamed m name t = (d : Declaration D) × (declaration_at m t ≡ some d) × (name_of d ≡ name)

  abbrev pub Resolves : MetaModel D → Type 0
  Resolves m = All (λ (name, t). IsNamed m name t) m.types_by_name

  -- The lists of declarations have grown.
  abbrev Extends : MetaModel D → MetaModel D → Type 0
  Extends m m' = (name : Bytes) (t : TypeIndex) → IsNamed m name t → IsNamed m' name t

  insert_type-Resolves :
      (name : Bytes) (sort : Sort) (i : ℕ) (m m' : MetaModel D)
      → m'.types_by_name ≡ m.types_by_name
      → Extends m m'
      → IsNamed m' name (record { sort = sort; index = i })
      → Resolves m
      → Gives Resolves (insert_type name sort i m')
  unfolding insert_type
  insert_type-Resolves name sort i m m' same ext at h =
      elim (Bool-cases (has_key name m'.types_by_name)) [
        | inl e ↦ rw e tt
        | inr e ↦ rw e (
            All-append (λ (n, t). IsNamed m' n t) m'.types_by_name
              (name, record { sort = sort; index = i })
              (rw same (
                All-mono (λ (n, t). IsNamed m n t) (λ (n, t). IsNamed m' n t) m.types_by_name
                  (λ (n, t). ext n t) h))
              at)
      ]

  enumerations-Extends :
      (m : MetaModel D) (e : Enumeration D) (name : Bytes) (sort : Sort) (i : ℕ)
      → IsNamed m name (record { sort = sort; index = i })
      → IsNamed
          (record m { enumerations = m.enumerations ++ e ∷ [] })
          name
          (record { sort = sort; index = i })
  enumerations-Extends m e name enumeration_sort i (d, at, n) =
      (d, map-get_elem?-append enumeration m.enumerations (e ∷ []) i d at, n)
  enumerations-Extends m e name structure_sort i h = h
  enumerations-Extends m e name alias_sort i h = h

  structures-Extends :
      (m : MetaModel D) (s : Structure) (name : Bytes) (sort : Sort) (i : ℕ)
      → IsNamed m name (record { sort = sort; index = i })
      → IsNamed
          (record m { structures = m.structures ++ s ∷ [] })
          name
          (record { sort = sort; index = i })
  structures-Extends m s name structure_sort i (d, at, n) =
      (d, map-get_elem?-append structure m.structures (s ∷ []) i d at, n)
  structures-Extends m s name enumeration_sort i h = h
  structures-Extends m s name alias_sort i h = h

  aliases-Extends :
      (m : MetaModel D) (a : TypeAlias) (name : Bytes) (sort : Sort) (i : ℕ)
      → IsNamed m name (record { sort = sort; index = i })
      → IsNamed
          (record m { type_aliases = m.type_aliases ++ a ∷ [] })
          name
          (record { sort = sort; index = i })
  aliases-Extends m a name alias_sort i (d, at, n) =
      (d, map-get_elem?-append alias m.type_aliases (a ∷ []) i d at, n)
  aliases-Extends m a name enumeration_sort i h = h
  aliases-Extends m a name structure_sort i h = h

  pub add_enumeration-Resolves :
      (e : Enumeration D) (m : MetaModel D) → Resolves m → Gives Resolves (add_enumeration e m)
  add_enumeration-Resolves e m h =
      insert_type-Resolves e.name enumeration_sort (length m.enumerations) m
        (record m { enumerations = m.enumerations ++ e ∷ [] }) refl
        (λ name t. enumerations-Extends m e name t.sort t.index)
        (enumeration e, rw (get_elem?-length m.enumerations e) refl, refl) h

  pub add_structure-Resolves :
      (s : Structure) (m : MetaModel D) → Resolves m → Gives Resolves (add_structure s m)
  add_structure-Resolves s m h =
      insert_type-Resolves s.name structure_sort (length m.structures) m
        (record m { structures = m.structures ++ s ∷ [] }) refl
        (λ name t. structures-Extends m s name t.sort t.index)
        (structure s, rw (get_elem?-length m.structures s) refl, refl) h

  pub add_alias-Resolves :
      (a : TypeAlias) (m : MetaModel D) → Resolves m → Gives Resolves (add_alias a m)
  add_alias-Resolves a m h =
      insert_type-Resolves a.name alias_sort (length m.type_aliases) m
        (record m { type_aliases = m.type_aliases ++ a ∷ [] }) refl
        (λ name t. aliases-Extends m a name t.sort t.index)
        (alias a, rw (get_elem?-length m.type_aliases a) refl, refl) h

  -- A step that keeps the names resolved.
  abbrev pub Keeps : (MetaModel D → Throws (MetaModel D)) → Type 0
  Keeps f = (m : MetaModel D) → Resolves m → Gives Resolves (f m)

  pub each_object-Keeps :
      (f : Fields D → MetaModel D → Throws (MetaModel D)) (vs : Items D)
      → ((json : Fields D) → Keeps (f json))
      → Keeps (each_object f vs)
  unfolding each_object
  each_object-Keeps f nil k m h = h
  each_object-Keeps f (cons v vs) k m h =
      Gives-any Resolves (as_object v) _
        λ json. Gives-bind Resolves Resolves (f json m) _ (k json m h) (each_object-Keeps f vs k)
