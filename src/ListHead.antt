-- ===== src/ListHead.antt =====
-- What the program uses of template-v1/src/lgu/list/list.h, a copy of the Linux kernel's list.h: a
-- list head with the entries linked to it. An entry is named by the address of the structure that
-- holds it.
use linux_c_template.Prelude.{ℕ, ◌≡◌, ◌↔◌, refl, Bool, true, false, List, [], ◌∷◌, arith}
use linux_c_template.Prelude.Lists.{◌∉◌, Distinct, remove}

-- `entries` is the order in which the loops over the list visit it. The laws are what the comments
-- of list.h document of each operation, on entries that are linked at most once.
pub record ListHead : Type 1 where
  pub Links : Type 0
  pub init_list_head : Links
  pub list_add : ℕ → Links → Links
  pub list_del : ℕ → Links → Links
  pub list_empty : Links → Bool
  pub list_first_entry : Links → ℕ
  pub entries : Links → List ℕ
  pub entries-init_list_head : entries init_list_head ≡ []
  pub list_empty_iff : (l : Links) → (list_empty l ≡ true) ↔ (entries l ≡ [])
  pub list_first_entry_lem :
      (l : Links) (p : ℕ) (ps : List ℕ) → entries l ≡ p ∷ ps → list_first_entry l ≡ p
  pub entries-list_add :
      (p : ℕ) (l : Links) → p ∉ entries l → entries (list_add p l) ≡ p ∷ entries l
  pub entries-list_del :
      (p : ℕ) (l : Links) → Distinct (entries l) → entries (list_del p l) ≡ remove p (entries l)

abbrev pub first_or_null : List ℕ → ℕ
first_or_null [] = 0
first_or_null (p ∷ _) = p

abbrev pub is_nil : List ℕ → Bool
is_nil [] = true
is_nil (_ ∷ _) = false

pub is_nil_iff : (l : List ℕ) → (is_nil l ≡ true) ↔ (l ≡ [])
is_nil_iff l = ground arith

pub first_or_null_lem : (l : List ℕ) (p : ℕ) (ps : List ℕ) → l ≡ p ∷ ps → first_or_null l ≡ p
first_or_null_lem l p ps e = rw e

-- A sequence meets the laws, so they can be met.
abbrev pub sequence : ListHead
sequence = record {
  Links = List ℕ;
  init_list_head = [];
  list_add = λ p l. p ∷ l;
  list_del = remove;
  list_empty = is_nil;
  list_first_entry = first_or_null;
  entries = λ l. l;
  entries-init_list_head = refl;
  list_empty_iff = is_nil_iff;
  list_first_entry_lem = first_or_null_lem;
  entries-list_add = λ p l out. refl;
  entries-list_del = λ p l d. refl;
}
