-- ===== src/Store/Memory.antt =====
-- A table in memory, with a stream that says which statements fail: it shows that the promises of a
-- table can be kept, also by one that fails.
use little_cex.Prelude.{
  ℕ, ◌+◌, ◌≡◌, ◌≢◌, inl, inr, refl, Bool, true, false, Option, none, some, Map, if◌then◌else◌,
  Bool-cases, Eq, int_eq, bytes_eq, nat_eq, lookup, insert, lookup-insert_ne, lookup-insert_self,
}
use little_cex.Store.{Table, IsTable, changed, affected, put}

pub record Memory (Key Row : Type 0) : Type 0 where
  pub content : Map Key Row
  pub fails : ℕ → Bool

module _ {Key Row : Type 0} ⦃e : Eq Key⦄ where
  abbrev next : Memory Key Row → Memory Key Row
  next d = record d { fails = λ n. d.fails (n + 1) }

  abbrev changed_map : Key → Option Row → Map Key Row → Map Key Row
  changed_map k none m = m
  changed_map k (some r) m = insert k r m

  abbrev write_row : Key → Option Row → Memory Key Row → Memory Key Row
  write_row k o d = record { content = changed_map k o d.content; fails = λ n. d.fails (n + 1) }

  unfoldable pub memory_table : Table Key Row (Memory Key Row)
  memory_table = record {
    row = λ k d. lookup k d.content;
    select = λ k d. if d.fails 0 then none else some (lookup k d.content);
    update = λ k cond f d. if d.fails 0 then (none, next d) else (
      some (affected cond (lookup k d.content)),
      write_row k (changed cond f (lookup k d.content)) d,
    );
    upsert = λ k fresh f d.
        if d.fails 0
        then (false, next d)
        else (true, write_row k (some (put fresh f (lookup k d.content))) d);
    save = λ k r d. if d.fails 0 then (false, next d) else (true, write_row k (some r) d);
  }

  changed_row :
      (k : Key) (cond : Row → Bool) (f : Row → Row) (m : Map Key Row) (o : Option Row)
      → lookup k m ≡ o
      → lookup k (changed_map k (changed cond f o) m) ≡ changed cond f o
  changed_row k cond f m none h = h
  changed_row k cond f m (some r) h = lookup-insert_self k (if cond r then f r else r) m

  changed_only :
      (j k : Key) (o : Option Row) (m : Map Key Row)
      → j ≢ k
      → lookup j (changed_map k o m) ≡ lookup j m
  changed_only j k none m h = refl
  changed_only j k (some r) m h = lookup-insert_ne j k r m h

  pub memory_table-IsTable : IsTable memory_table
  unfolding memory_table
  memory_table-IsTable = record {
    select_lem =
        λ k d. elim (Bool-cases (d.fails 0)) [ inl t ↦ inl (rw t refl) | inr t ↦ inr (rw t refl) ];
    update_lem = λ k cond f d. elim (Bool-cases (d.fails 0)) [
      | inl t ↦ inl (rw t (refl, refl))
      | inr t ↦ inr (rw t (refl, changed_row k cond f d.content (lookup k d.content) refl))
    ];
    update_only = λ k cond f d j h. elim (Bool-cases (d.fails 0)) [
      | inl t ↦ rw t refl
      | inr t ↦ rw t (changed_only j k (changed cond f (lookup k d.content)) d.content h)
    ];
    upsert_lem = λ k fresh f d. elim (Bool-cases (d.fails 0)) [
      | inl t ↦ inl (rw t (refl, refl))
      | inr t ↦ inr (rw t (refl, lookup-insert_self k (put fresh f (lookup k d.content)) d.content))
    ];
    upsert_only = λ k fresh f d j h. elim (Bool-cases (d.fails 0)) [
      | inl t ↦ rw t refl
      | inr t ↦ rw t (lookup-insert_ne j k (put fresh f (lookup k d.content)) d.content h)
    ];
    save_lem = λ k r d. elim (Bool-cases (d.fails 0)) [
      | inl t ↦ inl (rw t (refl, refl))
      | inr t ↦ inr (rw t (refl, lookup-insert_self k r d.content))
    ];
    save_only = λ k r d j h. elim (Bool-cases (d.fails 0)) [
      | inl t ↦ rw t refl
      | inr t ↦ rw t (lookup-insert_ne j k r d.content h)
    ];
  }

  -- A table in memory whose statements never fail.
  unfoldable pub plain_table : Table Key Row (Map Key Row)
  plain_table = record {
    row = lookup;
    select = λ k d. some (lookup k d);
    update = λ k cond f d.
        (some (affected cond (lookup k d)), changed_map k (changed cond f (lookup k d)) d);
    upsert = λ k fresh f d. (true, insert k (put fresh f (lookup k d)) d);
    save = λ k r d. (true, insert k r d);
  }

  pub plain_table-IsTable : IsTable plain_table
  unfolding plain_table
  plain_table-IsTable = record {
    select_lem = λ k d. inr refl;
    update_lem = λ k cond f d. inr (refl, changed_row k cond f d (lookup k d) refl);
    update_only = λ k cond f d j h. changed_only j k (changed cond f (lookup k d)) d h;
    upsert_lem = λ k fresh f d. inr (refl, lookup-insert_self k (put fresh f (lookup k d)) d);
    upsert_only = λ k fresh f d j h. lookup-insert_ne j k (put fresh f (lookup k d)) d h;
    save_lem = λ k r d. inr (refl, lookup-insert_self k r d);
    save_only = λ k r d j h. lookup-insert_ne j k r d h;
  }
