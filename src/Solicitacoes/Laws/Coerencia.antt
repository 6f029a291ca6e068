-- ===== src/Solicitacoes/Laws/Coerencia.antt =====
-- The status of a request of src/solicitacoes/solicitacoes.service.ts against the two decisions and
-- the marks of its items.
use sistema_iccv_backend.Common.{
  ℕ, ◌+◌, ◌≡◌, refl, subst, Bool, true, false, not, ◌&&◌, Option, none, some, List, [], ◌∷◌, arith,
  ◌==◌, if◌then◌else◌, filter, length, nat_eq, All, ok, or_throw, >>=-eq-ok, >>-eq-ok, ok-subst,
  mem_of_find?, All-mem, require-eq-ok, ==_iff, or_throw-eq-ok, Bool-cases, inl, inr, ◌≢◌,
}
use sistema_iccv_backend.Access.Database.{Database}
use sistema_iccv_backend.Solicitacoes.{
  ChurchRequestStatus, awaiting_treasury, awaiting_pastor, rejected, accepted, partially_accepted,
  same_status, muda_situacao, Item, Solicitacao, antes_da_decisao, decidida, Lado, pastor,
  tesoureiro, Lideranca, ProdutoPedido, CriarDto, MudarDto, DecidirDto, itens, nova,
  igreja_do_membro, conferir_modulo, criar, papel, find_request, gravar, conferir_mudanca, mudada,
  gravar_mudanca, nao_e_membro, nao_encontrada,
}
use sistema_iccv_backend.Solicitacoes.Decisao.{
  is_true, is_null, decisao_de, meus_produtos, final, em_comum, novo_status, decidir_itens,
  decidir_linha, decidir, linha_decidida,
}

-- What a decision says of the marks of its side: none yet, no product, or one mark for each.
abbrev pub Fits : Option Bool → Option Bool → Type 0
Fits none mark = mark ≡ none
Fits (some false) mark = mark ≡ some false
Fits (some true) mark = is_null mark ≡ false

-- The outcome of a product that two decisions and its marks give.
abbrev pub resultado : (pastoral tesouraria : Option Bool) → Item → Option Bool
resultado none none item = none
resultado none (some true) item = none
resultado (some true) none item = none
resultado (some true) (some true) item =
    some (is_true item.pastor_accepted && is_true item.treasury_accepted)
resultado _ _ item = some false

-- How many products came out accepted.
abbrev pub aceitos : List Item → ℕ
aceitos items = length (filter (λ item. is_true item.accepted) items)

abbrev pub Situacao :
    (pastoral tesouraria : Option Bool) → (comum total : ℕ) → ChurchRequestStatus → Type 0
Situacao none none comum total status = antes_da_decisao status ≡ true
Situacao none (some true) comum total status = status ≡ awaiting_pastor
Situacao (some true) none comum total status = status ≡ awaiting_treasury
Situacao (some true) (some true) comum total status =
    status
    ≡ (if comum == 0 then rejected else if comum == total then accepted else partially_accepted)
Situacao _ _ comum total status = status ≡ rejected

abbrev pub ItemFits : (pastoral tesouraria : Option Bool) → Item → Type 0
ItemFits pastoral tesouraria item =
    Fits pastoral item.pastor_accepted
    × Fits tesouraria item.treasury_accepted
    × (item.accepted ≡ resultado pastoral tesouraria item)

pub record IsCoherent (s : Solicitacao) : Type 0 where
  pub marks : All (ItemFits s.pastor_decision s.treasury_decision) s.items
  pub situation :
      Situacao s.pastor_decision s.treasury_decision (aceitos s.items) (length s.items) s.status

-- What `MudarStatusDto` lets pass.
abbrev pub DoAdmin : Option ChurchRequestStatus → Type 0
DoAdmin none = Unit
DoAdmin (some status) = antes_da_decisao status ≡ true

itens-fit :
    (id_de : ℕ → ℕ) (posicao : ℕ) (produtos : List ProdutoPedido)
    → All (ItemFits none none) (itens id_de posicao produtos)
unfolding itens
itens-fit id_de posicao [] = tt
itens-fit id_de posicao (p ∷ produtos) =
    ((refl, refl, refl), itens-fit id_de (posicao + 1) produtos)

-- Before a decision, one status before it is as good as another.
antes-Situacao :
    (pastoral tesouraria : Option Bool) (comum total comum' total' : ℕ) (a b : ChurchRequestStatus)
    → antes_da_decisao a ≡ true
    → antes_da_decisao b ≡ true
    → Situacao pastoral tesouraria comum total a
    → Situacao pastoral tesouraria comum' total' b
antes-Situacao none none comum total comum' total' a b ha hb h = hb
antes-Situacao (some true) (some true) comum total comum' total' a b ha hb h = absurd (ground arith)
antes-Situacao _ _ comum total comum' total' a b ha hb h = absurd (ground arith)

-- The two rows have the same decisions.
abbrev pub SameDecisions : Solicitacao → Solicitacao → Type 0
SameDecisions a b =
    (a.pastor_decision ≡ b.pastor_decision) × (a.treasury_decision ≡ b.treasury_decision)

muda-antes :
    (status : Option ChurchRequestStatus) (lida s : Solicitacao)
    → DoAdmin status
    → not (muda_situacao status lida.status && not (antes_da_decisao lida.status)) ≡ true
    → SameDecisions lida s
    → IsCoherent lida
    → Situacao s.pastor_decision s.treasury_decision (aceitos s.items) (length s.items) s.status
    → Situacao s.pastor_decision s.treasury_decision
        (aceitos s.items)
        (length s.items)
        (elim status [
          | none ↦ s.status
          | some novo ↦ if same_status novo lida.status then s.status else novo
        ])
muda-antes none lida s d h same l w = w
muda-antes (some novo) lida s d h same l w = elim (Bool-cases (same_status novo lida.status)) [
  | inl e ↦ rw e w
  | inr e ↦ rw e (
      antes-Situacao s.pastor_decision s.treasury_decision (aceitos lida.items) (length lida.items)
        (aceitos s.items) (length s.items) lida.status novo (ground arith) d
        (rw (← same.0, ← same.1) l.situation))
]

mudada-IsCoherent :
    (dto : MudarDto) (lida s : Solicitacao)
    → DoAdmin dto.status
    → conferir_mudanca dto lida.status ≡ ok tt
    → SameDecisions lida s
    → IsCoherent lida
    → IsCoherent s
    → IsCoherent (mudada dto lida.status s)
unfolding mudada conferir_mudanca
mudada-IsCoherent dto lida s d h same l w = record {
  marks = w.marks;
  situation = muda-antes dto.status lida s d (require-eq-ok _ _ h) same l w.situation;
}

-- No row of this id was decided since.
abbrev pub NotDecidedSince : (id : ℕ) → (lida : Solicitacao) → List Solicitacao → Type 0
NotDecidedSince id lida rows = All (λ s. s.id ≡ id → SameDecisions lida s) rows

gravar_mudanca-All :
    (id : ℕ) (dto : MudarDto) (lida : Solicitacao) (rows : List Solicitacao)
    → DoAdmin dto.status
    → conferir_mudanca dto lida.status ≡ ok tt
    → NotDecidedSince id lida rows
    → IsCoherent lida
    → All IsCoherent rows
    → All IsCoherent (gravar_mudanca id dto lida.status rows)
unfolding gravar_mudanca
gravar_mudanca-All id dto lida [] d h n l w = tt
gravar_mudanca-All id dto lida (s ∷ rows) d h n l w = elim (Bool-cases (s.id == id)) [
  | inl e ↦ rw e (
    mudada-IsCoherent dto lida s d h (n.0 ((==_iff s.id id).0 e)) l w.0,
    gravar_mudanca-All id dto lida rows d h n.1 l w.1,
  )
  | inr e ↦ rw e (w.0, gravar_mudanca-All id dto lida rows d h n.1 l w.1)
]

length-decidir_itens :
    (lado : Lado) (aprova outro : Bool) (meus : List ℕ) (items : List Item)
    → length (decidir_itens lado aprova outro meus items) ≡ length items
unfolding decidir_itens
length-decidir_itens lado aprova outro meus [] = refl
length-decidir_itens lado aprova outro meus (x ∷ items) =
    omega (arith, length-decidir_itens lado aprova outro meus items)

aceitos-decidir_itens :
    (lado : Lado) (aprova outro : Bool) (meus : List ℕ) (items : List Item)
    → aceitos (decidir_itens lado aprova outro meus items) ≡ em_comum lado aprova outro meus items
unfolding decidir_itens final
aceitos-decidir_itens lado aprova outro meus [] = refl
aceitos-decidir_itens lado aprova outro meus (x ∷ items) =
    ground (arith, aceitos-decidir_itens lado aprova outro meus items)

-- The decisions with this side's first.
abbrev FitsDe : Lado → (meu outro : Option Bool) → Item → Type 0
FitsDe pastor meu outro = ItemFits meu outro
FitsDe tesoureiro meu outro = ItemFits outro meu

abbrev SituacaoDe :
    Lado → (meu outro : Option Bool) → (comum total : ℕ) → ChurchRequestStatus → Type 0
SituacaoDe pastor meu outro = Situacao meu outro
SituacaoDe tesoureiro meu outro = Situacao outro meu

recusa-fit :
    (lado : Lado) (outro : Option Bool) (items : List Item)
    → outro ≢ some false
    → All (FitsDe lado none outro) items
    → All (FitsDe lado (some false) outro) (decidir_itens lado false (is_true outro) [] items)
unfolding decidir_itens final
recusa-fit lado outro [] o w = tt
recusa-fit pastor outro (x ∷ items) o w = (ground arith, recusa-fit pastor outro items o w.1)
recusa-fit tesoureiro outro (x ∷ items) o w =
    (ground arith, recusa-fit tesoureiro outro items o w.1)

aprova-fit :
    (lado : Lado) (outro : Option Bool) (meus : List ℕ) (items : List Item)
    → outro ≢ some false
    → All (FitsDe lado none outro) items
    → All (FitsDe lado (some true) outro) (decidir_itens lado true (is_true outro) meus items)
unfolding decidir_itens final
aprova-fit lado outro meus [] o w = tt
aprova-fit pastor outro meus (x ∷ items) o w =
    (ground arith, aprova-fit pastor outro meus items o w.1)
aprova-fit tesoureiro outro meus (x ∷ items) o w =
    (ground arith, aprova-fit tesoureiro outro meus items o w.1)

novo_status-Situacao :
    (lado : Lado) (aprova : Bool) (outro : Option Bool) (comum total : ℕ)
    → outro ≢ some false
    → SituacaoDe lado
        (some aprova)
        outro
        comum
        total
        (novo_status lado aprova (is_true outro) comum total)
unfolding novo_status
novo_status-Situacao pastor aprova outro comum total o = ground arith
novo_status-Situacao tesoureiro aprova outro comum total o = ground arith

-- A refusal closes the request.
aberta-ne_false :
    (pastoral tesouraria : Option Bool) (comum total : ℕ) (status : ChurchRequestStatus)
    → not (decidida status) ≡ true
    → Situacao pastoral tesouraria comum total status
    → (pastoral ≢ some false) × (tesouraria ≢ some false)
aberta-ne_false pastoral tesouraria comum total status open_ h = (ground arith, ground arith)

is_null-eq : (o : Option Bool) → is_null o ≡ true → o ≡ none
is_null-eq none h = refl
is_null-eq (some b) h = cc

decidir_itens-fit :
    (lado : Lado) (dto : DecidirDto) (outro : Option Bool) (items : List Item)
    → outro ≢ some false
    → All (FitsDe lado none outro) items
    → All
        (FitsDe lado (some dto.aprova) outro)
        (decidir_itens lado dto.aprova (is_true outro) (meus_produtos dto items) items)
decidir_itens-fit lado dto outro items o w = elim (Bool-cases dto.aprova) [
  | inl e ↦ rw e (aprova-fit lado outro _ items o w)
  | inr e ↦ rw e (recusa-fit lado outro items o w)
]

linha_decidida-IsCoherent :
    (lado : Lado) (u agora : ℕ) (dto : DecidirDto) (s : Solicitacao)
    → not (decidida s.status) ≡ true
    → decisao_de lado s ≡ none
    → IsCoherent s
    → IsCoherent (linha_decidida lado u agora dto s)
unfolding linha_decidida
linha_decidida-IsCoherent pastor u agora dto s aberta livre w =
    let o = aberta-ne_false _ _ _ _ _ aberta w.situation in
    record {
      marks =
          decidir_itens-fit pastor dto s.treasury_decision s.items o.1
            (subst (λ p. All (ItemFits p s.treasury_decision) s.items) livre w.marks);
      situation =
          rw
            (
              aceitos-decidir_itens pastor dto.aprova (is_true s.treasury_decision)
                  (meus_produtos dto s.items) s.items,
              length-decidir_itens pastor dto.aprova (is_true s.treasury_decision)
                  (meus_produtos dto s.items) s.items,
            )
            (novo_status-Situacao pastor dto.aprova s.treasury_decision _ _ o.1);
    }
linha_decidida-IsCoherent tesoureiro u agora dto s aberta livre w =
    let o = aberta-ne_false _ _ _ _ _ aberta w.situation in
    record {
      marks =
          decidir_itens-fit tesoureiro dto s.pastor_decision s.items o.0
            (subst (λ p. All (ItemFits s.pastor_decision p) s.items) livre w.marks);
      situation =
          rw
            (
              aceitos-decidir_itens tesoureiro dto.aprova (is_true s.pastor_decision)
                  (meus_produtos dto s.items) s.items,
              length-decidir_itens tesoureiro dto.aprova (is_true s.pastor_decision)
                  (meus_produtos dto s.items) s.items,
            )
            (novo_status-Situacao tesoureiro dto.aprova s.pastor_decision _ _ o.0);
    }

-- A decision that went through was open to this side, and its result is known.
pub decidir_linha-eq-ok :
    (lado : Lado) (u agora : ℕ) (dto : DecidirDto) (s : Solicitacao) {t : Solicitacao}
    → decidir_linha lado u agora dto s ≡ ok t
    → (not (decidida s.status) ≡ true)
      × (is_null (decisao_de lado s) ≡ true)
      × (linha_decidida lado u agora dto s ≡ t)
unfolding decidir_linha
decidir_linha-eq-ok lado u agora dto s h = ground arith

decidir_linha-IsCoherent :
    (lado : Lado) (u agora : ℕ) (dto : DecidirDto) (s : Solicitacao) {t : Solicitacao}
    → decidir_linha lado u agora dto s ≡ ok t
    → IsCoherent s
    → IsCoherent t
decidir_linha-IsCoherent lado u agora dto s h w =
    let (aberta, livre, same) = decidir_linha-eq-ok lado u agora dto s h in
    subst IsCoherent same
      (linha_decidida-IsCoherent lado u agora dto s aberta (is_null-eq (decisao_de lado s) livre) w)

gravar-All :
    (P : Solicitacao → Type 0) (n : Solicitacao) (rows : List Solicitacao)
    → P n
    → All P rows
    → All P (gravar n rows)
unfolding gravar
gravar-All P n [] pn w = tt
gravar-All P n (x ∷ rows) pn w = elim (Bool-cases (x.id == n.id)) [
  | inl e ↦ rw e (pn, gravar-All P n rows pn w.1)
  | inr e ↦ rw e (w.0, gravar-All P n rows pn w.1)
]

-- An operation on the row that a search finds keeps what it keeps of the row.
no_achado :
    (rows : List Solicitacao) (church_id id : ℕ) {s : Solicitacao}
    → or_throw (find_request rows church_id id) nao_encontrada ≡ ok s
    → All IsCoherent rows
    → IsCoherent s
unfolding find_request
no_achado rows church_id id h w =
    All-mem IsCoherent rows w (mem_of_find? _ rows (or_throw-eq-ok _ _ h)).0

-- One operation that went through, by anybody and at any time; `ids` are of new rows.
pub data Step : List Solicitacao → List Solicitacao → Type 0 where
  pede :
      {rows next : List Solicitacao} (db : Database) (m : Option ℕ) (u novo : ℕ) (ids : ℕ → ℕ)
      (dto : CriarDto)
      → criar db m u novo ids dto rows ≡ ok next
      → Step rows next
  decide :
      {rows next : List Solicitacao} (db : Database) (ls : List Lideranca) (c id u t : ℕ)
      (dto : DecidirDto)
      → decidir db ls c id u t dto rows ≡ ok next
      → Step rows next

-- `mudarStatus` is cut between its read and its write: what it read may stem from any earlier table,
-- so long as the request was not decided in between.
pub data Reach : List Solicitacao → Type 0 where
  start : Reach []
  next : {rows rows' : List Solicitacao} → Reach rows → Step rows rows' → Reach rows'
  muda :
      {antes rows : List Solicitacao} {lida : Solicitacao} (church_id id : ℕ) (dto : MudarDto)
      → Reach antes
      → find_request antes church_id id ≡ some lida
      → conferir_mudanca dto lida.status ≡ ok tt
      → DoAdmin dto.status
      → Reach rows
      → NotDecidedSince id lida rows
      → Reach (gravar_mudanca id dto lida.status rows)

Step-All-IsCoherent :
    {rows rows' : List Solicitacao} → Step rows rows' → All IsCoherent rows → All IsCoherent rows'
unfolding criar decidir
Step-All-IsCoherent (pede {rows} db m u novo ids dto h) w =
    let (c, _, k) = >>=-eq-ok (or_throw (igreja_do_membro db m) nao_e_membro) _ h in
    let (_, k') = >>-eq-ok (conferir_modulo db c) _ k in
    ok-subst (All IsCoherent) {x = nova novo c u (itens ids 0 dto.produtos) dto ∷ rows} k'
      (record { marks = itens-fit ids 0 dto.produtos; situation = refl }, w)
Step-All-IsCoherent (decide {rows} db ls c id u t dto h) w =
    let (lado, _, k) = >>=-eq-ok {A = Lado} (or_throw (papel db ls c u) _) _ h in
    let (s, found, k') = >>=-eq-ok {A = Solicitacao} (or_throw (find_request rows c id) _) _ k in
    let (s', changed, k'') = >>=-eq-ok (decidir_linha lado u t dto s) _ k' in
    ok-subst (All IsCoherent) k'' (
      gravar-All IsCoherent s' rows
        (decidir_linha-IsCoherent lado u t dto s changed (no_achado rows c id found w)) w)

-- However members, admins, pastors and treasuries act, so long as no decision on a request falls
-- between mudarStatus's read and its write of it: in every request on record the status is the one
-- that the two decisions call for: open before any, waiting for the side that is missing, rejected
-- once a side has refused or no product was approved by both, accepted when all were and partially
-- accepted when some were; a side's products are marked exactly when it has decided; and a product
-- has an outcome exactly when the request is closed, accepted if both sides approved it.
pub Reach-All-IsCoherent : {rows : List Solicitacao} → Reach rows → All IsCoherent rows
unfolding find_request
Reach-All-IsCoherent start = tt
Reach-All-IsCoherent (next r step) = Step-All-IsCoherent step (Reach-All-IsCoherent r)
Reach-All-IsCoherent (muda {antes} {rows} {lida} church_id id dto before found h d r n) =
    let l = All-mem IsCoherent antes (Reach-All-IsCoherent before) (mem_of_find? _ antes found).0 in
    gravar_mudanca-All id dto lida rows d h n l (Reach-All-IsCoherent r)
