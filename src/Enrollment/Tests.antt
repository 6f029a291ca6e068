-- ===== src/Enrollment/Tests.antt =====
-- An event with one seat left, and people who want it (src/event/event.service.ts).
use sistema_iccv_backend.Common.{
  ℕ, ◌+◌, ◌≤◌, ◌≡◌, refl, ◌⊎◌, true, false, not, none, some, List, [], ◌∷◌, map, Memᴰ, arith,
  length, filter, any, find?, ◌==◌,
}
use sistema_iccv_backend.Store.{get}
use sistema_iccv_backend.Enrollment.Janela.{
  JanelaDoGrupo, grupo_fechado, calculate_age, idade_do_termo,
}
use sistema_iccv_backend.Enrollment.Cadastro.{
  Grupo, Papel, Usuario, Evento, not_required, Cadastro, Resultado, registered,
}
use sistema_iccv_backend.Enrollment.Inscricao.{
  Pedido, papeis_pedidos, da_pessoa, vagas_tomadas, novo_registro, nova_cobranca, processar,
  registrar, conferir, primeiro_fechado, upsert, minor_approval_de,
}
use sistema_iccv_backend.Enrollment.Mudancas.{
  moved_user_from_waitlist_to_event, sair_da_fila, liberar_vaga, da_inscricao, na_fila, Painel,
  update_user_from_event, inscrever, excluir_inscrito, remove_user_from_event, sair,
}
use sistema_iccv_backend.Enrollment.Laws.Atendimento.{Atendido}
use sistema_iccv_backend.Enrollment.Laws.Contrato.{ha_vaga, pedidos, registrar-Atendido}
use sistema_iccv_backend.Enrollment.Laws.Contagem.{na_vez}
use sistema_iccv_backend.Enrollment.Laws.Vagas.{registrar-IsWithin, registrar-IsUnique}
use sistema_iccv_backend.Enrollment.Laws.Trocas.{update_user_from_event_exact}
use sistema_iccv_backend.Enrollment.Laws.Subida.{moved_user_from_waitlist_to_event-IsSeated}
use sistema_iccv_backend.Enrollment.Laws.Saidas.{Saiu, remove_user_from_event-frees}

abbrev aberta : JanelaDoGrupo
aberta = record { active = true; opens_at = some 10; closes_at = none }

abbrev grupo : Grupo
grupo = record { id = 3; event_id = 5; capacity = some 1; janela = aberta }

abbrev papel : Papel
papel = record { id = 30; price = 0; grupo = grupo }

abbrev pedido : Pedido
pedido = record { user_id = 10; event_id = 5; minor_approval = not_required; aceitou_termo = false }

abbrev pessoa : ℕ → Usuario
pessoa id = record {
  id = id;
  birthday = record { year = 1990; month = 0; day = 1 };
  blocked = false;
}

abbrev vazio : Cadastro
vazio = record {
  usuarios = pessoa 10 ∷ pessoa 11 ∷ [];
  eventos =
      record {
        id = 5;
        start_date = record { year = 2026; month = 6; day = 1 };
        end_date = some 100;
        minor_age_limit = none;
      }
      ∷ [];
  papeis = papel ∷ [];
  inscritos = [];
  registros = [];
  esperas = [];
  cobrancas = [];
}

-- After person 10 took the seat.
abbrev cheio : Cadastro
cheio = record vazio {
  inscritos =
      record { user_id = 10; event_id = 5; minor_approval = not_required; terms_accepted = false }
      ∷ [];
  registros = novo_registro pedido papel ∷ [];
  cobrancas = nova_cobranca pedido papel ∷ [];
}

abbrev respostas : List Resultado
respostas = record { role_id = 30; tipo = registered } ∷ []

registrar-Atendido_example :
    (user : Usuario) × (event : Evento) × (find? (λ u. u.id == 10) vazio.usuarios ≡ some user)
    × (find? (λ e. e.id == 5) vazio.eventos ≡ some event)
    × Atendido 10 5
        (minor_approval_de user event)
        false
        (ha_vaga vazio.registros 5)
        (pedidos vazio.papeis (30 ∷ []) 5)
        vazio
        cheio
        respostas
unfolding registrar conferir papeis_pedidos processar primeiro_fechado grupo_fechado
    minor_approval_de calculate_age idade_do_termo upsert get
registrar-Atendido_example =
    registrar-Atendido 50 false true 10 5 (30 ∷ []) vazio {c' = cheio} {rs = respostas} refl

limits : (p : Papel) → Memᴰ p (papel ∷ []) → p.grupo.id ≡ 3 → p.grupo.capacity ≡ some 1
limits p (Memᴰ.head same) e = rw same
limits p (Memᴰ.tail m) e = elim m [ ]

registrar-IsWithin_example :
    (vagas_tomadas cheio.registros 5 3 ≤ 1)
    ⊎ (vagas_tomadas cheio.registros 5 3 ≡ vagas_tomadas vazio.registros 5 3)
unfolding registrar conferir papeis_pedidos processar primeiro_fechado grupo_fechado
    minor_approval_de calculate_age idade_do_termo upsert get
registrar-IsWithin_example =
    registrar-IsWithin 50 false true 10 5 (30 ∷ []) vazio {c' = cheio} {rs = respostas} refl 3 1
      limits

none_registered : (u e g : ℕ) → length (filter (na_vez u e g) vazio.registros) ≤ 1
none_registered u e g = omega arith

registrar-IsUnique_example : length (filter (na_vez 10 5 3) cheio.registros) ≤ 1
unfolding registrar conferir papeis_pedidos processar primeiro_fechado grupo_fechado
    minor_approval_de calculate_age idade_do_termo upsert get
registrar-IsUnique_example =
    registrar-IsUnique 50 false true 10 5 (30 ∷ []) vazio {c' = cheio} {rs = respostas} refl
      none_registered 10 5 3

update_user_from_event_exact_example :
    (map (λ r. r.papel) (filter (da_pessoa 10 5) cheio.registros)
      ≡ papeis_pedidos cheio.papeis (30 ∷ []) 5)
    × (filter (λ r. not (da_pessoa 10 5 r)) cheio.registros
        ≡ filter (λ r. not (da_pessoa 10 5 r)) cheio.registros)
unfolding update_user_from_event excluir_inscrito inscrever registrar conferir papeis_pedidos
    processar primeiro_fechado grupo_fechado minor_approval_de calculate_age idade_do_termo upsert
    get
update_user_from_event_exact_example =
    update_user_from_event_exact 50 10 5 (30 ∷ []) cheio {c' = cheio} {rs = respostas} refl

abbrev painel : Painel
painel = record { cadastro = cheio; checkouts = []; quartos = []; transportes = []; equipes = [] }

remove_user_from_event-frees_example :
    ((g : ℕ)
      → vagas_tomadas (sair 10 5 painel).cadastro.registros 5 g
          + length (filter (na_vez 10 5 g) cheio.registros)
        ≡ vagas_tomadas cheio.registros 5 g)
    × Saiu 10 5 painel (sair 10 5 painel)
unfolding remove_user_from_event
remove_user_from_event-frees_example =
    remove_user_from_event-frees 10 5 30 painel {p' = sair 10 5 painel} refl

-- Person 11 waits, and gets the seat of person 10.
abbrev com_fila : Cadastro
com_fila = record cheio { esperas = record { user_id = 11; event_id = 5; role_id = 30 } ∷ [] }

abbrev pedido_da_11 : Pedido
pedido_da_11 = record pedido { user_id = 11 }

abbrev trocado : Cadastro
trocado = record vazio {
  inscritos =
      record { user_id = 11; event_id = 5; minor_approval = not_required; terms_accepted = false }
      ∷ [];
  registros = novo_registro pedido_da_11 papel ∷ [];
  cobrancas = nova_cobranca pedido_da_11 papel ∷ [];
}

moved_user_from_waitlist_to_event-IsSeated_example :
    (any (da_inscricao 11 5 30) trocado.registros ≡ true)
    × (any (na_fila 11 5 30) trocado.esperas ≡ false)
unfolding moved_user_from_waitlist_to_event sair_da_fila liberar_vaga inscrever registrar conferir
    papeis_pedidos processar primeiro_fechado grupo_fechado minor_approval_de calculate_age
    idade_do_termo upsert get
moved_user_from_waitlist_to_event-IsSeated_example =
    moved_user_from_waitlist_to_event-IsSeated 50 11 10 5 30 com_fila {c' = trocado}
      {rs = respostas} refl
