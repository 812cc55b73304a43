-- ===== src/Lib.antt =====
-- advisor-backend: the message dispatcher and the services behind it.
--
-- The program receives messages from Kafka, hands them to the handler of their topic, and keeps a
-- database of hosts, rules and reports, which the API serves to users with the right permissions.
--
-- - Common: tests, lists, results with Python's exceptions (`Result`), and association lists for
--   dicts. Json: the values of `json.loads` and Python's operations on them, each with the exception
--   that it raises; its numbers are integers only.
-- - Kafka (api/advisor/kafka_utils.py). Message has the messages (`DummyMessage`), the handler types
--   and the `Codec`, which stands for UTF-8 decoding, `json.loads` and `json.dumps`. Consumer has
--   `DummyConsumer` and the interface of the consumer that the dispatcher uses; Producer has
--   `DummyProducer`, `send_kafka_message` and `send_webhook_event`. Dispatcher is `KafkaDispatcher`:
--   `prepare_message` is `_prepare_message`, `handle_message` `_handle_message`,
--   `handle_batch_messages` `_handle_batch_messages`, `store_offsets` `_store_offsets`, `batch_round`
--   one pass of the loop of `_receive_batch`, `single_round` one of `_receive_single`. A handler is any
--   function on a world `W`, which may raise and may set `quit`; a consumer is a parameter with any
--   state `C`.
-- - Inventory (api/advisor/api/management/commands/advisor_inventory_service.py). Events has
--   `parse_created_event` and `parse_deleted_event`, with the Prometheus counters as `Metrics`; Batch
--   the loop of `handle_inventory_event`; Stale `_filter_stale_events`; Store the rest of
--   `handle_inventory_event`, `bulk_upsert_hosts` and `bulk_delete_hosts`. The database and
--   `parse_datetime` are parameters (`Database`, `Clock`): any functions that may raise.
--   `transaction.atomic()` gives back the database that its block began with where the block raises.
-- - Permissions (api/advisor/api/permissions.py). Permission has `RBACPermission`; HostGroups
--   `find_host_groups`, of whose parts each has its function, with `json.loads` as a parameter. Checks
--   has `has_rbac_permission`, with the request to the RBAC service as a parameter, `check_permission`
--   and `identity_to_subject`; Roles what `has_rbac_permission` does with the service's answer
--   (`check_response`), where `data` is a list. The elapsed time is left out. Identity has
--   `get_identity_header` and the authentication classes, with the state of the request that they set;
--   Views the permissions that go by `allowed_views`, and those of internal users, associates and
--   organisations; Systems `CertAuthPermission`, `request_to_user_data`, `request_to_username` and
--   `request_to_org`; Insights `InsightsRBACPermission`, with the checks by RBAC and by Kessel as
--   parameters (`Access`).
-- - Requests (api/advisor/api/utils.py) is `retry_request`: what becomes of the n-th request is a
--   parameter, and it gives the number of requests as well.
-- - Tasks (api/advisor/tasks/). Models has the rows of models.py and `send_event_message` of
--   kafka_utils.py; Status `update_executed_task_status` and Updates the handlers
--   `handle_ansible_job_updates` and `handle_script_job_updates` with `update_job_status`, Fetch
--   `fetch_playbook_dispatcher_stdout` and Stdout `parse_json_from_stdout`, all of
--   management/commands/tasks_service.py; Stale the command stale_job_timeout.py; Views `cancel`,
--   `destroy`, `create_jobs_for_executed_task` and `send_start_messages` of views/executed_task.py. An
--   object is a copy of its row, which `save` writes back, so two objects of one row differ as they do
--   in the program. The tables are lists in which queries keep the order; a handler runs without others
--   in between, the clock stands still in it, and a write to the tables does not raise. An output of a
--   job that is no text is taken to raise. What the service uses of Python, Django and the other
--   services is a parameter (`Outside`).
-- - Service (service/). Executor is `BoundedExecutor` of service/bounded_executor.py, its semaphore as a
--   step relation; Payload is `traverse_keys` of service/utils.py and the look-up of the required keys
--   in `handle_engine_results` of service/service.py; Reports is what `create_db_reports` there does
--   with the reports of a host: the filters of the rules, the new, existing and resolved reports, their
--   writes in one transaction, and the message to the inventory views, which is sent inside it. What
--   writes the host and the upload, the commit, and whether a message is produced are parameters, and
--   the hooks for the webhooks are left out;
--   Deletion is its `handle_inventory_event`, with the three deletions as a parameter.
--
-- Loops that run until the dispatcher is told to quit take fuel, and give `none` where it is used up.
-- `DummyConsumer` hands out its messages, closes on the next poll and sets `quit` on the one after, so
-- three rounds more than there are messages are enough.
--
-- Not modelled: logging; the signal handlers and the start of the processes; the ORM's queries, which
-- are parameters; the calls of Kessel; the API's views, filters and serializers, the content import,
-- and the Satellite compatibility API; of the upload service the handlers around the reports; of the
-- tasks the requests that dispatch them, `handle_sources_event`, and the read views.
pub mod Common
pub mod Json
pub mod Kafka
pub mod Inventory
pub mod Permissions
pub mod Service
pub mod Requests
pub mod Tasks
