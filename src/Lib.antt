-- ===== src/Lib.antt =====
-- community.aws: an Ansible collection of modules, connection plugins and scripts that manage AWS
-- resources. A module is a Python script of its own: it reads parameters, asks the service for the
-- current state, decides what differs, and makes the calls that change it. This library models the
-- decisions of some of them, and the calls they make in order.
--
-- - Base: what the components share. Booleans, lists, comparison, exceptions as values, the few
--   string methods, the integers, runs with a state (`Run`), and predicates on them (`Rules`).
-- - S3Lifecycle: plugins/modules/s3_lifecycle.py. `Rule` has the dictionaries of the lifecycle
--   rules; `Build` is the part of `create_lifecycle_rule` that makes a rule of the parameters;
--   `Merge` has `merge_transitions`, `compare_rule` and `update_or_append_rule`; `Create` is the
--   loop of `create_lifecycle_rule`; `Destroy` has `destroy_lifecycle_rule` and the whole of
--   `create_lifecycle_rule`. `Client` is the interface of the S3 calls, with the state of the
--   service as a type of its own, and `Main` is the function `main`.
-- - Asg: plugins/modules/ec2_asg.py, the rolling replacement of instances and the deletion of a
--   group. `Properties` is `get_properties`; `Select` has `get_instances_by_launch_config`,
--   `get_instances_by_launch_template` and `list_purgeable_instances`; `Chunks` is `get_chunks`;
--   `Batch` is `terminate_batch`; `Wait` has `wait_for_new_inst` and `wait_for_term_inst`;
--   `Replace` is what `replace` decides before it changes the group; `Cloud` is the interface of
--   the calls that change one; `Balancers` has `elb_dreg`, `elb_healthy`, `tg_healthy`,
--   `wait_for_elb` and `wait_for_target_group`; `Rolling` composes all of them to `replace`, with
--   `terminate_batch` making its calls; `Delete` is `delete_autoscaling_group`.
-- - Ssm: plugins/connection/aws_ssm.py. `Text` has the methods of Python's strings that are used,
--   on lists of code points; `Process` has `_wrap_command` and `_post_process`; `Exec` has the loop
--   of `exec_command`, and that function with its decorator; `Retry` is the decorator `_ssm_retry`;
--   `Transport` has `_file_transport_command` without that decorator, `put_file` and `fetch_file`.
-- - S3Notification: plugins/modules/s3_bucket_notification.py. `Config` is the class of that name
--   with `from_params`; `Bucket` has the methods of `AmazonBucket` and the decision of `main`.
-- - IamPolicy: plugins/modules/iam_policy.py. `Client` is the interface of the IAM calls and the four
--   methods that the subclasses override; `Policy` is the class of that name, from `get_policy_text`
--   to `run`.
-- - Kinesis: plugins/modules/kinesis_stream.py. `Client` is the interface of the Kinesis calls and of
--   the clock, with the messages of the module; `Actions` has the functions that make one call;
--   `Tags`, `Find`, `Update`, `Create`, `Delete`, `Encryption` and `Main` have the functions of those
--   names, and `Convert` has `convert_to_lower`. `Closed` has the rules that carry a predicate on
--   runs over from the single calls to the whole module, for `CheckMode` and `Ends`.
-- - EcsTask: plugins/modules/ecs_taskdefinition.py. `Values` has the values of JSON with Python's
--   equality; `Match` the two functions that compare what is asked for with a definition;
--   `Register` the loops that convert the containers; `Manager` the class `EcsTaskManager`, over an
--   interface of the ECS calls; `Main` the function `main`.
-- - Elasticache: plugins/modules/elasticache.py. `Compare` has the comparisons of settings, `Status`
--   `_refresh_data` and `_wait_for_status`, `Actions` the five actions of `ElastiCacheManager`, and
--   `Main` the rest. `Closed` carries a predicate on runs over from the wait and the calls to the
--   whole manager, for `Coherent` and `Ends`; `Reached` and `Limits` have the other proofs.
-- - ManagedPolicy: plugins/modules/iam_managed_policy.py. `Versions` has the functions on the versions
--   of a policy, with their loops; `Main` the removal of a policy, `detach_all_entities` and `main`.
-- - ParameterGroup: plugins/modules/elasticache_parameter_group.py. `Values` has the dictionary of
--   modifiable parameters, `check_valid_modification` and `check_changed_parameter_values`; `Main` has
--   the functions that make the calls, and `main`.
--
-- An object that the code mutates is passed along: the new lifecycle rule, which is one object
-- wherever it was appended, is a constructor of its own in the configuration that is being built.
-- Exceptions, and the end of a module by `fail_json`, are values of `Result`. The waiting loops of
-- Asg take fuel, a bound on their rounds; a round lasts ten seconds or more, so that a tenth of the
-- timeout and two rounds are enough; the wait for a group to go has rounds of five seconds, and a
-- fifth of the timeout and two rounds are enough. Times are whole seconds. Whether None is smaller
-- than a number, as in Python 2, or not comparable with it, as in Python 3, is a field of the
-- service of Asg. The functions of Kinesis are runs of `Base.Run`, from the state of the service to
-- a value and a state, an exception, or `endless`, which stands for a loop that has used its fuel:
-- `pages` bounds the pages that one `find_stream` reads, and one is enough where the service has no
-- more shards than a page; `rounds` bounds the rounds of one `wait_for_status`, which last five
-- seconds or more, so that a fifth of the timeout and one round are enough. The runs of Elasticache
-- have the manager for their state, which holds that of the service; its wait has no timeout in the
-- code: as many rounds are enough as the cluster takes seconds to settle, and no number where it
-- does not. The functions of EcsTask are runs, too: `pages` bounds the pages of a listing, and as
-- many are enough as the service has.
--
-- Not modelled: the calls of boto3 and of Ansible themselves, check of the parameters by Ansible,
-- debug messages, the connection to a service, and the modules of the collection that are not named
-- here: there are a hundred and more, each a script of its own.
pub mod Base
pub mod Asg
pub mod EcsTask
pub mod Elasticache
pub mod IamPolicy
pub mod Kinesis
pub mod ManagedPolicy
pub mod ParameterGroup
pub mod S3Lifecycle
pub mod S3Notification
pub mod Ssm
