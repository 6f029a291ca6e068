-- ===== src/Checkin/Tests.antt =====
-- Two people arrive at an event with one bedroom for one (src/checkin/checkin.service.ts).
use sistema_iccv_backend.Common.{◌≡◌, ok, refl, some, List, [], ◌∷◌, Memᴰ, arith, All}
use sistema_iccv_backend.Checkin.{find_checkin, update_many, da_inscricao, done, complete, concluir}
use sistema_iccv_backend.Checkin.Quartos.{
  Quarto, ocupantes, com_vaga, candidate_bedrooms, ocupar_um, allocate_bedroom,
}
use sistema_iccv_backend.Checkin.Balcao.{
  Recepcao, novo_checkin, find_registration, entregar_cracha, marcar_quarto, deliver_badge, undo,
}
use sistema_iccv_backend.Checkin.Laws.Carimbos.{IsStamped}
use sistema_iccv_backend.Checkin.Laws.Passos.{Step, Reach, Reach-All-IsStamped}
use sistema_iccv_backend.Checkin.Laws.Desfeito.{reaberto, undo-complete}
use sistema_iccv_backend.Checkin.Laws.Vagas.{HasOwnIds, IsHoused, deliver_badge-IsHoused}

abbrev suite : Quarto
suite = record { id = 1; event_id = 5; capacity = some 1; group_tags = 2 ∷ [] }

abbrev vazia : Recepcao
vazia = record {
  participantes =
      record { user_id = 10; event_id = 5; grupos = 2 ∷ [] }
      ∷ record { user_id = 11; event_id = 5; grupos = 2 ∷ [] }
      ∷ [];
  checkins = [];
  quartos = suite ∷ [];
  ocupacoes = [];
  com_quartos = 5 ∷ [];
}

-- The order of the table serves as the order of the names.
abbrev por_nome : List Quarto → List Quarto
por_nome qs = qs

abbrev entregue : Recepcao
entregue = record vazia {
  checkins = record (novo_checkin 5 10 90 1000) { auto_bedroom_id = some 1 } ∷ [];
  ocupacoes = record { user_id = 10; bedroom_id = 1; event_id = 5 } ∷ [];
}

abbrev chegou : Step por_nome vazia entregue
unfolding deliver_badge find_registration entregar_cracha find_checkin allocate_bedroom
    candidate_bedrooms ocupar_um com_vaga ocupantes marcar_quarto update_many
chegou = Step.entrega 5 10 90 1000 refl

Reach-All-IsStamped_example : All IsStamped entregue.checkins
Reach-All-IsStamped_example = Reach-All-IsStamped por_nome (Reach.next (Reach.start refl) chegou)

sorts : (qs : List Quarto) (q : Quarto) → Memᴰ q (por_nome qs) → Memᴰ q qs
sorts qs q m = m

vazia-HasOwnIds : HasOwnIds vazia.quartos
vazia-HasOwnIds q r (Memᴰ.head a) (Memᴰ.head b) same = rw (a, b)
vazia-HasOwnIds q r (Memᴰ.tail a) b same = elim a [ ]
vazia-HasOwnIds q r a (Memᴰ.tail b) same = elim b [ ]

vazia-IsHoused : IsHoused vazia.quartos vazia.ocupacoes
unfolding ocupantes
vazia-IsHoused q limit m at = omega arith

deliver_badge-IsHoused_example : IsHoused entregue.quartos entregue.ocupacoes
unfolding deliver_badge find_registration entregar_cracha find_checkin allocate_bedroom
    candidate_bedrooms ocupar_um com_vaga ocupantes marcar_quarto update_many
deliver_badge-IsHoused_example =
    deliver_badge-IsHoused por_nome 5 10 90 1000 vazia {s' = entregue} sorts vazia-HasOwnIds
      vazia-IsHoused refl

abbrev concluida : Recepcao
concluida = record entregue {
  checkins =
      record (novo_checkin 5 10 90 1000) {
        auto_bedroom_id = some 1;
        status = done;
        done_at = some 2000;
        done_by = some 91;
        notes = some 8;
      }
      ∷ [];
}

undo-complete_example :
    undo 5 10 concluida
    ≡ ok (record entregue {
      checkins = update_many (da_inscricao 5 10) (reaberto (some 8)) entregue.checkins;
    })
unfolding complete update_many concluir
undo-complete_example =
    undo-complete 5 10 91 2000 (some 8) entregue {rows' = concluida.checkins} ((λ his. tt), tt)
      ((λ open_. (refl, refl)), tt) refl
