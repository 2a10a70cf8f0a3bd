-- ===== src/Client/Passes.antt =====
-- About cmd/client/main.go against the deployed service.
use crm_beginner.Base.Int.{pos, eq_ℤ, eq_ℤ_self}
use crm_beginner.Base.{
  ℕ, ◌≡◌, ◌≢◌, inl, inr, refl, ap, ◌∙◌, subst, true, false, none, some, Option, List, [], ◌∷◌, ◌++◌,
  any, Result, ok, err, arith, ==_iff,
}
use crm_beginner.Client.{
  Fatal, or_fatal, unless_not_found, is_not_found, delete_steps, update_steps, refused_steps, main,
  direct,
}
use crm_beginner.Domain.Email.{Email, new_email}
use crm_beginner.Domain.{Customer, sentinel, not_found, error_is}
use crm_beginner.Grpc.Customers.{
  create_customer, get_customer, update_customer, delete_customer, to_proto,
}
use crm_beginner.Grpc.Status.{Status, not_found_code, to_grpc_error}
use crm_beginner.Postgres.Customers.Lookup.{taken}
use crm_beginner.Postgres.Customers.Rows.{
  change-append, remove-append, remove-none, taken-append, taken_beside-append,
}
use crm_beginner.Postgres.Table.Find.{find-append}
use crm_beginner.Postgres.Table.{find, taken_beside, new_row, changed, change, remove}
use crm_beginner.Service
use crm_beginner.Service.World.Calls.{
  Answers, Leaves, create-new, create-refused, get-found, delete-found, update-new, update-missing,
}
use crm_beginner.Service.World.Coherence.{Sound}
use crm_beginner.Service.World.{World, Context, Deployment, service}
use crm_beginner.Text.{Bytes, bytes, equal, trim_space}

or_fatal-ok :
    {A S : Type 0} (P : Option Fatal × S → Type 0) (fatal : Status → Fatal)
    (r : Result Status A × S) (next : A → S → Option Fatal × S) (a : A)
    → r.0 ≡ ok a
    → P (next a r.1)
    → P (or_fatal fatal r next)
unfolding or_fatal
or_fatal-ok P fatal (ok b, w) next a h v = let same : a ≡ b = cc in subst (λ x. P (next x w)) same v
or_fatal-ok P fatal (err s, w) next a h v = absurd cc

unless_not_found-missing :
    {A S : Type 0} (P : Option Fatal × S → Type 0) (r : Result Status A × S)
    (next : S → Option Fatal × S)
    → r.0 ≡ err (to_grpc_error (sentinel not_found))
    → P (next r.1)
    → P (unless_not_found r next)
unfolding unless_not_found to_grpc_error error_is is_not_found
unless_not_found-missing P (ok a, w) next h v = absurd cc
unless_not_found-missing P (err s, w) next h v =
    let same : s ≡ to_grpc_error (sentinel not_found) = cc in
    let code : s.code ≡ not_found_code = ap (λ x. x.code) same in rw code v

find-last :
    (rows : List Customer) (row : Customer)
    → find row.id rows ≡ none
    → find row.id (rows ++ (row ∷ [])) ≡ some row
find-last rows row h = find-append row.id rows row h ∙ rw (eq_ℤ_self row.id) refl

module _ (d : Deployment) (format_time : ℕ → Bytes) (ctx : ℕ → Context)
    (answers : (n : ℕ) → Answers (ctx n)) where
  -- The client got through, and the rows are as they were.
  abbrev pub Passes : List Customer → Option Fatal × World → Type 0
  Passes rows r = (r.0 ≡ none) × (r.1.table.rows ≡ rows)

  delete_steps-Passes :
      (rows : List Customer) (row : Customer) (w : World)
      → find row.id rows ≡ none
      → Leaves d (rows ++ (row ∷ [])) w
      → Passes rows (delete_steps (direct format_time d.map_lower (service d)) ctx row.id w)
  unfolding delete_steps delete_customer get_customer
  delete_steps-Passes rows row w fresh v =
      let one = delete-found d (ctx 7) row.id w (answers 7) v.sound in
      let w1 = (Service.delete d.map_lower (service d) (ctx 7) row.id w).1 in
      let rows1 : w1.table.rows ≡ rows =
        one.1.rows_are ∙ ap (remove row.id) v.rows_are ∙ remove-append rows row fresh in
      let two = get-found d (ctx 8) row.id w1 (answers 8) one.1.sound in
      let w2 = (Service.get_by_id d.map_lower (service d) (ctx 8) row.id w1).1 in
      let rows2 : w2.table.rows ≡ rows = two.1.rows_are ∙ rows1 in
      let three = delete-found d (ctx 9) row.id w2 (answers 9) two.1.sound in
      let found : find row.id w.table.rows ≡ some row =
        ap (find row.id) v.rows_are ∙ find-last rows row fresh in
      let gone : find row.id w1.table.rows ≡ none = ap (find row.id) rows1 ∙ fresh in
      or_fatal-ok (Passes rows) _
        (delete_customer format_time d.map_lower (service d) (ctx 7) row.id w) _
        (record { message = bytes "customer deleted" }) (rw (one.0, found) refl)
        (unless_not_found-missing (Passes rows)
          (get_customer format_time d.map_lower (service d) (ctx 8) row.id w1) _
          (rw (two.0, gone) refl)
          (refl, three.1.rows_are ∙ ap (remove row.id) rows2 ∙ remove-none row.id rows fresh))

  update_steps-Passes :
      (rows : List Customer) (row : Customer) (raw : Bytes) (email : Email) (w : World)
      → find row.id rows ≡ none
      → find (pos 999999) rows ≡ none
      → eq_ℤ row.id (pos 999999) ≡ false
      → new_email d.map_lower raw ≡ ok email
      → any (λ q. equal q.email email.value) rows ≡ false
      → Leaves d (rows ++ (row ∷ [])) w
      → Passes rows (update_steps (direct format_time d.map_lower (service d)) ctx row.id raw w)
  unfolding update_steps update_customer
  update_steps-Passes rows row raw email w fresh missing other good free v =
      let name = bytes "Ali A. Rezaei" in
      let found : find row.id w.table.rows ≡ some row =
        ap (find row.id) v.rows_are ∙ find-last rows row fresh in
      let one =
        update-new d (ctx 5) row.id name raw email row w (answers 5) v.sound
          (unfold trim_space in refl) good found
          (ap (taken_beside row.id email.value) v.rows_are
            ∙ taken_beside-append email.value rows row free) in
      let w1 = (Service.update d.map_lower (service d) (ctx 5) row.id name raw w).1 in
      let row1 = changed (ctx 5).sql.now name email.value row in
      let rows1 : w1.table.rows ≡ rows ++ (row1 ∷ []) =
        one.1.rows_are
        ∙ ap (change row.id (changed (ctx 5).sql.now name email.value)) v.rows_are
        ∙ change-append (changed (ctx 5).sql.now name email.value) rows row fresh in
      let still : find (pos 999999) w1.table.rows ≡ none =
        ap (find (pos 999999)) rows1
        ∙ find-append (pos 999999) rows row1 fresh
        ∙ rw other missing in
      let two =
        update-missing d (ctx 6) (pos 999999) (bytes "Nobody") (bytes "nobody@example.com") w1
          (answers 6) one.1.sound (unfold trim_space in refl) still in
      or_fatal-ok (Passes rows) _
        (update_customer format_time d.map_lower (service d) (ctx 5) row.id name raw w) _
        (to_proto format_time d.map_lower (service d) row1) (rw one.0 refl)
        (delete_steps-Passes rows row1 _ fresh
          (record { rows_are = two.rows_are ∙ rows1; sound = two.sound }))

  refused_steps-Passes :
      (rows : List Customer) (row : Customer) (own raw : Bytes) (own_email email : Email)
      (w : World)
      → find row.id rows ≡ none
      → find (pos 999999) rows ≡ none
      → eq_ℤ row.id (pos 999999) ≡ false
      → new_email d.map_lower own ≡ ok own_email
      → row.email ≡ own_email.value
      → new_email d.map_lower raw ≡ ok email
      → any (λ q. equal q.email email.value) rows ≡ false
      → Leaves d (rows ++ (row ∷ [])) w
      → Passes rows
          (refused_steps (direct format_time d.map_lower (service d)) ctx row.id own raw w)
  unfolding refused_steps create_customer get_customer
  refused_steps-Passes rows row own raw own_email email w fresh missing other valid same good free
        v =
      let gone : find (pos 999999) w.table.rows ≡ none =
        ap (find (pos 999999)) v.rows_are
        ∙ find-append (pos 999999) rows row fresh
        ∙ rw other missing in
      let one = get-found d (ctx 2) (pos 999999) w (answers 2) v.sound in
      let w1 = (Service.get_by_id d.map_lower (service d) (ctx 2) (pos 999999) w).1 in
      let two =
        create-refused d (ctx 3) [] [] w1 (answers 3) one.1.sound
          (inl (unfold trim_space in refl)) in
      let w2 = (Service.create d.map_lower (service d) (ctx 3) [] [] w1).1 in
      let rows2 : w2.table.rows ≡ rows ++ (row ∷ []) = two.rows_are ∙ one.1.rows_are ∙ v.rows_are in
      let dup : taken own_email.value w2.table ≡ true =
        ap (any (λ q. equal q.email own_email.value)) rows2
        ∙ subst (λ e. any (λ q. equal q.email e) (rows ++ (row ∷ [])) ≡ true) same
            (taken-append rows row) in
      let three =
        create-refused d (ctx 4) (bytes "Impostor") own w2 (answers 4) two.sound
          (inr (unfold trim_space in refl, own_email, valid, dup)) in
      unless_not_found-missing (Passes rows)
        (get_customer format_time d.map_lower (service d) (ctx 2) (pos 999999) w) _
        (rw (one.0, gone) refl)
        (update_steps-Passes rows row raw email _ fresh missing other good free
          (record { rows_are = three.rows_are ∙ rows2; sound = three.sound }))

  -- Against a sound server whose database and Redis answer, with two valid addresses that no row
  -- holds, if no row has the id 999999 and it is not the next one: the client gets through all its
  -- calls, and the rows are, at its end, those at its start.
  pub main-Passes :
      (own raw : Bytes) (own_email email : Email) (w : World)
      → Sound d w
      → new_email d.map_lower own ≡ ok own_email
      → new_email d.map_lower raw ≡ ok email
      → taken own_email.value w.table ≡ false
      → taken email.value w.table ≡ false
      → find (pos 999999) w.table.rows ≡ none
      → w.table.next_id ≢ 999999
      → Passes w.table.rows (main (direct format_time d.map_lower (service d)) ctx own raw w)
  unfolding main create_customer get_customer
  main-Passes own raw own_email email w v valid good own_free free missing other =
      let name = bytes "Ali Rezaei" in
      let one =
        create-new d (ctx 0) name own own_email w (answers 0) v (unfold trim_space in refl) valid
          own_free in
      let w1 = (Service.create d.map_lower (service d) (ctx 0) name own w).1 in
      let row = new_row (ctx 0).sql.now w.table.next_id name own_email.value in
      let two = get-found d (ctx 1) row.id w1 (answers 1) one.2.sound in
      let found : find row.id w1.table.rows ≡ some row =
        ap (find row.id) one.2.rows_are ∙ find-last w.table.rows row one.1 in
      or_fatal-ok (Passes w.table.rows) _
        (create_customer format_time d.map_lower (service d) (ctx 0) name own w) _
        (record { id = row.id; message = bytes "customer created" }) (rw one.0 refl)
        (or_fatal-ok (Passes w.table.rows) _
          (get_customer format_time d.map_lower (service d) (ctx 1) row.id w1) _
          (to_proto format_time d.map_lower (service d) row) (rw (two.0, found) refl)
          (refused_steps-Passes w.table.rows row own raw own_email email _ one.1 missing
            (unfold eq_ℤ in ground (arith, ==_iff w.table.next_id 999999)) valid refl good free
            (record { rows_are = two.1.rows_are ∙ one.2.rows_are; sound = two.1.sound })))
