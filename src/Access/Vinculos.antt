-- ===== src/Access/Vinculos.antt =====
-- src/auth/admin-do-evento.ts and src/auth/tesoureiro-do-evento.ts: the links of a person with an
-- event. As a link with a church, one with an event of an inactive church does not count.
use sistema_iccv_backend.Common.{ℕ, Bool, ◌&&◌, List, ◌==◌, any}
use sistema_iccv_backend.Access.Database.{Database, EventLink, vinculo_vale}

-- `event: VINCULO_VALE`, and the same with the church given.
unfoldable pub evento_vale : Database → ℕ → Bool
unfolding vinculo_vale
evento_vale db event_id = any (λ e. e.id == event_id && vinculo_vale db e.church_id) db.events

unfoldable pub evento_vale_na_igreja : Database → ℕ → ℕ → Bool
unfolding vinculo_vale
evento_vale_na_igreja db church_id event_id =
    any (λ e. e.id == event_id && e.church_id == church_id && vinculo_vale db e.church_id) db.events

-- The three questions, over either table.
abbrev tem_vinculo : Database → List EventLink → ℕ → Bool
tem_vinculo db links user_id = any (λ v. v.user_id == user_id && evento_vale db v.event_id) links

abbrev vinculo_do_evento : Database → List EventLink → ℕ → ℕ → Bool
vinculo_do_evento db links user_id event_id =
    any (λ v. v.user_id == user_id && v.event_id == event_id && evento_vale db v.event_id) links

abbrev vinculo_na_igreja : Database → List EventLink → ℕ → ℕ → Bool
vinculo_na_igreja db links user_id church_id =
    any (λ v. v.user_id == user_id && evento_vale_na_igreja db church_id v.event_id) links

unfoldable pub tem_vinculo_de_admin_de_evento : Database → ℕ → Bool
unfolding evento_vale
tem_vinculo_de_admin_de_evento db user_id = tem_vinculo db db.event_admins user_id

unfoldable pub admin_do_evento : Database → ℕ → ℕ → Bool
unfolding evento_vale
admin_do_evento db user_id event_id = vinculo_do_evento db db.event_admins user_id event_id

unfoldable pub admin_de_evento_na_igreja : Database → ℕ → ℕ → Bool
unfolding evento_vale_na_igreja
admin_de_evento_na_igreja db user_id church_id =
    vinculo_na_igreja db db.event_admins user_id church_id

unfoldable pub tem_vinculo_de_tesoureiro : Database → ℕ → Bool
unfolding evento_vale
tem_vinculo_de_tesoureiro db user_id = tem_vinculo db db.event_treasurers user_id

-- The source returns the kind of the link, and its callers ask whether there is one.
unfoldable pub tesoureiro_do_evento : Database → ℕ → ℕ → Bool
unfolding evento_vale
tesoureiro_do_evento db user_id event_id = vinculo_do_evento db db.event_treasurers user_id event_id

unfoldable pub tesoureiro_na_igreja : Database → ℕ → ℕ → Bool
unfolding evento_vale_na_igreja
tesoureiro_na_igreja db user_id church_id =
    vinculo_na_igreja db db.event_treasurers user_id church_id
