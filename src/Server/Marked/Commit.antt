-- ===== src/Server/Marked/Commit.antt =====
-- Marks and `__process_multicast_rpc_commit` of lib/handler.c.
use maruswap.Base.{ℕ, false, List, [], ◌∷◌, erase}
use maruswap.Base.Run.{gets, modify}
use maruswap.Drive.Net.{Wc}
use maruswap.Server.State.{Verbs}
use maruswap.Server.Send.{ib_putback_recv_work}
use maruswap.Server.Convey.{ib_convey_page}
use maruswap.Server.Handler.{answer_commit}
use maruswap.Server.Multicast.{
  convey_each, putback_each, multicast_commit_pages, process_multicast_rpc_commit,
}
use maruswap.Server.Marked.{
  Leaves, pure-Leaves, gets-Leaves, bind-Leaves, then-Leaves, test-Leaves, modify-Leaves, leaves,
}
use maruswap.Server.Marked.Sends.{ib_multicast_send_detail-Leaves, answer_commit-Leaves}
use maruswap.Server.Marked.Blocks.{ib_convey_page-Leaves}

module _ (v : Verbs) (work : ℕ) where
  convey_each-Leaves : (works : List ℕ) → Leaves work (convey_each v works)
  unfolding convey_each
  convey_each-Leaves [] = pure-Leaves work tt
  convey_each-Leaves (p ∷ works) =
      bind-Leaves work (gets (λ s. (s.works p).wc)) _ (gets-Leaves work _) (λ wc.
        bind-Leaves work (ib_convey_page v wc) _ (ib_convey_page-Leaves v work wc) (λ conveyed.
          test-Leaves work conveyed _ _ (convey_each-Leaves works) (pure-Leaves work tt)))

  ib_putback_recv_work-Leaves : (qp p : ℕ) → Leaves work (ib_putback_recv_work v qp p)
  unfolding ib_putback_recv_work
  ib_putback_recv_work-Leaves qp p = search leaves

  putback_each-Leaves : (works : List ℕ) → Leaves work (putback_each v works)
  unfolding putback_each
  putback_each-Leaves [] = pure-Leaves work tt
  putback_each-Leaves (p ∷ works) =
      then-Leaves work (modify (λ s. record s { commit_list = erase p s.commit_list })) _
        (modify-Leaves work _ (λ s h. h))
        (bind-Leaves work (gets (λ s. s.multicast_qp)) _ (gets-Leaves work _) (λ qp.
          bind-Leaves work (gets (λ s. (s.works p).wc.wr_id)) _ (gets-Leaves work _) (λ id.
            then-Leaves work (ib_putback_recv_work v qp id) _ (ib_putback_recv_work-Leaves qp id)
              (putback_each-Leaves works))))

  multicast_commit_pages-Leaves :
      (fuel : ℕ) (wc : Wc) (pages : List ℕ) → Leaves work (multicast_commit_pages v fuel wc pages)
  unfolding multicast_commit_pages
  multicast_commit_pages-Leaves fuel wc pages =
      search (leaves, convey_each-Leaves, ib_multicast_send_detail-Leaves, putback_each-Leaves)
        depth 9

  pub process_multicast_rpc_commit-Leaves :
      (fuel : ℕ) (wc : Wc) → Leaves work (process_multicast_rpc_commit v fuel wc)
  unfolding process_multicast_rpc_commit
  process_multicast_rpc_commit-Leaves fuel wc =
      bind-Leaves work (gets (λ s. s.commit_list)) _ (gets-Leaves work _) branches
    where
      branches :
          (pages : List ℕ)
          → Leaves work (elim pages [
            | [] ↦ answer_commit v fuel wc false
            | p ∷ works ↦ multicast_commit_pages v fuel wc (p ∷ works)
          ])
      branches [] = answer_commit-Leaves v work fuel wc false
      branches (p ∷ works) = multicast_commit_pages-Leaves fuel wc (p ∷ works)
