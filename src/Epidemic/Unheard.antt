-- ===== src/Epidemic/Unheard.antt =====
-- artillery-core/src/epidemic/state.rs, `send_member_event`, and cluster.rs, `drop`: a node whose user has
-- dropped the `Cluster`, and with it the receiver of the node's events.
